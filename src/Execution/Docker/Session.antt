-- ===== src/Execution/Docker/Session.antt =====
-- tako_vm/execution/docker.py: the workspace of a session and the commands of its container. A path
-- is read as pathlib.PurePosixPath reads it.
use tako_vm.Prelude.{
  ℕ, suc, zero, ◌+◌, Option, none, some, Bool, true, false, not, ◌&&◌, ◌||◌, List, [], ◌∷◌, ◌++◌,
  leb, ◌==◌, if◌then◌else◌,
}
use tako_vm.Security.{Text, is_empty, has_char, same_text}
use tako_vm.Texts.{codes, starts_with, is_one_of, strip, split, join}
use tako_vm.Execution.Docker.{when, each, base_isolation_args}
pub mod Workspace

-- The root of a path: two slashes at the start, and no third, are one of their own.
unfoldable pub root_of : Text → Text
unfolding starts_with codes
root_of t =
    if starts_with (codes "///") t
    then codes "/"
    else if starts_with (codes "//") t
    then codes "//"
    else if starts_with (codes "/") t
    then codes "/"
    else []

-- The components without the empty ones and the dots.
unfoldable pub proper : List Text → List Text
unfolding same_text codes
proper [] = []
proper (p ∷ ps) =
    let rest = proper ps in if is_empty p || same_text p (codes ".") then rest else p ∷ rest

unfoldable pub parts_of : Text → List Text
unfolding proper split
parts_of t = proper (split 47 t)

-- `str(Path(text))`
abbrev pub or_dot : Text → Text
unfolding codes
or_dot t = if is_empty t then codes "." else t

unfoldable pub path_str : Text → Text
unfolding root_of parts_of join codes
path_str t = or_dot (root_of t ++ join (codes "/") (parts_of t))

unfoldable pub is_absolute : Text → Bool
unfolding root_of
is_absolute t = not (is_empty (root_of t))

-- `os.path.normpath` of an absolute path: a `..` takes the component before it away; the components
-- done are in reverse.
abbrev dropped : List Text → List Text
dropped [] = []
dropped (p ∷ ps) = ps

unfoldable pub collapse : List Text → List Text → List Text
unfolding same_text codes
collapse done [] = done
collapse done (p ∷ ps) = collapse (if same_text p (codes "..") then dropped done else p ∷ done) ps

unfoldable pub reversed : List Text → List Text → List Text
reversed acc [] = acc
reversed acc (p ∷ ps) = reversed (p ∷ acc) ps

unfoldable pub normpath : Text → Text
unfolding root_of parts_of collapse reversed join codes
normpath t = root_of t ++ join (codes "/") (reversed [] (collapse [] (parts_of t)))

-- `text.rstrip("/")`
unfoldable pub without_slashes : Text → Text
without_slashes [] = []
without_slashes (c ∷ cs) =
    let rest = without_slashes cs in if is_empty rest && c == 47 then [] else c ∷ rest

-- _FORBIDDEN_WORKSPACE_ROOTS
unfoldable pub forbidden_roots : List Text
unfolding codes
forbidden_roots =
    codes "/"
    ∷ codes "/etc"
    ∷ codes "/root"
    ∷ codes "/home"
    ∷ codes "/boot"
    ∷ codes "/dev"
    ∷ codes "/proc"
    ∷ codes "/sys"
    ∷ codes "/var/run"
    ∷ codes "/run"
    ∷ codes "/usr"
    ∷ codes "/bin"
    ∷ codes "/sbin"
    ∷ codes "/lib"
    ∷ codes "/var/lib/docker"
    ∷ []

unfoldable pub count_char : ℕ → Text → ℕ
count_char c [] = 0
count_char c (x ∷ xs) = (if x == c then 1 else 0) + count_char c xs

-- The path is below one of the roots, the file system's own left out.
unfoldable pub is_below : Text → List Text → Bool
unfolding same_text starts_with codes
is_below t [] = false
is_below t (root ∷ roots) =
    (not (same_text root (codes "/")) && starts_with (root ++ codes "/") t) || is_below t roots

-- _reject_if_sensitive: one of the roots, or directly below one.
unfoldable pub is_sensitive : Text → Bool
unfolding is_one_of forbidden_roots is_below count_char
is_sensitive t =
    is_one_of t forbidden_roots || (is_below t forbidden_roots && leb (count_char 47 t) 2)

unfoldable pub is_sensitive_real : Option Text → Bool
unfolding is_sensitive
is_sensitive_real none = false
is_sensitive_real (some r) = is_sensitive r

-- `real` is the resolved path of a path that exists. The result is the normalized path, `none` for
-- a ValueError.
module _ (real : Text → Option Text) where
  unfoldable pub validate_session_workspace_dir : Text → Option Text
  unfolding strip has_char is_absolute path_str normpath without_slashes same_text is_one_of
      parts_of codes is_sensitive is_sensitive_real
  validate_session_workspace_dir dir =
      if is_empty dir || is_empty (strip dir)
      then none
      else if has_char 0 dir || has_char 10 dir || has_char 13 dir
      then none
      else if not (is_absolute dir)
      then none
      else if not (same_text (normpath (path_str dir)) (without_slashes (path_str dir)))
          || is_one_of (codes "..") (parts_of dir)
      then none
      else if is_sensitive (normpath (path_str dir))
      then none
      else if is_sensitive_real (real (normpath (path_str dir)))
      then none
      else some (normpath (path_str dir))

  -- The default of `keepalive_cmd`.
  abbrev pub keepalive : Option (List Text) → List Text
  unfolding codes
  keepalive none = codes "sleep" ∷ codes "infinity" ∷ []
  keepalive (some cmd) = cmd

  abbrev pub session_command :
      (name runtime image session_id : Text)
      → (memory_limit cpu_limit : Option Text) → Bool
      → Option (List Text)
      → Text
      → List Text
  unfolding base_isolation_args codes
  session_command name runtime image session_id memory_limit cpu_limit caps cmd dir =
      base_isolation_args name runtime caps none false
      ++ (codes "-d"
          ∷ codes "--network=none"
          ∷ (codes "--label=tako-vm.session-id=" ++ session_id)
          ∷ codes "-v"
          ∷ (dir ++ codes ":/workspace")
          ∷ [])
      ++ each memory_limit (λ m. codes "--memory=" ++ m)
      ++ each cpu_limit (λ c. codes "--cpus=" ++ c)
      ++ (image ∷ [])
      ++ keepalive cmd

  unfoldable pub build_session_run_command :
      (name runtime image dir session_id : Text)
      → (memory_limit cpu_limit : Option Text) → Bool
      → Option (List Text)
      → Option (List Text)
  unfolding validate_session_workspace_dir base_isolation_args codes
  build_session_run_command name runtime image dir session_id memory_limit cpu_limit caps cmd =
      elim (validate_session_workspace_dir dir) [
        | none ↦ none
        | some d ↦
            some (session_command name runtime image session_id memory_limit cpu_limit caps cmd d)
      ]

-- `timeout_seconds` is the text of the float.
unfoldable pub build_session_exec_command : Text → List Text → Option Text → Text → List Text
unfolding codes
build_session_exec_command name command timeout_seconds workdir =
    (codes "docker"
      ∷ codes "exec"
      ∷ codes "-u"
      ∷ codes "1000:1000"
      ∷ codes "-w"
      ∷ workdir
      ∷ name
      ∷ [])
    ++ elim timeout_seconds [
      | none ↦ []
      | some t ↦
          codes "timeout" ∷ codes "--signal=TERM" ∷ codes "--kill-after=10s" ∷ (t ++ codes "s") ∷ []
    ]
    ++ command
