-- ===== src/Execution/Docker/Session/Workspace.antt =====
-- tako_vm/execution/docker.py: which workspaces of a session are refused.
use tako_vm.Prelude.{
  Option, none, some, Bool, true, false, not, ◌&&◌, ◌||◌, List, [], ◌∷◌, ◌++◌, leb, ◌≡◌, refl, sym,
  ap, arith, ◌∙◌, if◌then◌else◌, All,
}
use mathlib.Core.Option.{some-injective}
use tako_vm.Security.{Text, is_empty, has_char, same_text}
use tako_vm.Texts.Laws.{same_text→eq}
use tako_vm.Texts.{codes, starts_with, is_one_of, strip}
use tako_vm.Execution.Docker.Session.{
  forbidden_roots, count_char, is_below, is_sensitive, validate_session_workspace_dir, path_str,
  normpath, without_slashes, parts_of, is_absolute, is_sensitive_real,
}

-- The forbidden roots without that of the file system.
abbrev pub below_root : List Text
unfolding codes
below_root =
    codes "/etc"
    ∷ codes "/root"
    ∷ codes "/home"
    ∷ codes "/boot"
    ∷ codes "/dev"
    ∷ codes "/proc"
    ∷ codes "/sys"
    ∷ codes "/var/run"
    ∷ codes "/run"
    ∷ codes "/usr"
    ∷ codes "/bin"
    ∷ codes "/sbin"
    ∷ codes "/lib"
    ∷ codes "/var/lib/docker"
    ∷ []

is_sensitive_below :
    (name : Text)
    → count_char 47 name ≡ 0
    → All (λ root. is_sensitive (root ++ codes "/" ++ name) ≡ leb (count_char 47 root) 1) below_root
unfolding is_sensitive forbidden_roots is_below count_char is_one_of same_text starts_with codes
    below_root
is_sensitive_below name no_slash = rw no_slash (
  refl,
  (
    refl,
    (
      refl,
      (refl, (refl, (refl, (refl, (refl, (refl, (refl, (refl, (refl, (refl, (refl, tt))))))))))),
    ),
  ),
)

accepted :
    (a b c d e f : Bool) (t u : Text)
    → (if a
        then none
        else if b
        then none
        else if not c
        then none
        else if d
        then none
        else if e
        then none
        else if f
        then none
        else some t)
      ≡ some u
    → (t ≡ u) × (c ≡ true) × (d ≡ false) × (e ≡ false) × (f ≡ false)
accepted false false true false false false t u h = (some-injective t u h, refl, refl, refl, refl)
accepted true b c d e f t u h = ground (arith, h)
accepted false true c d e f t u h = ground (arith, h)
accepted false false false d e f t u h = ground (arith, h)
accepted false false true true e f t u h = ground (arith, h)
accepted false false true false true f t u h = ground (arith, h)
accepted false false true false false true t u h = ground (arith, h)

-- A path that is neither a root nor directly below one of a single component.
unfoldable pub IsOutside : Text → Type 0
unfolding codes count_char
IsOutside d =
    (is_one_of d forbidden_roots ≡ false)
    × ((name : Text)
        → count_char 47 name ≡ 0
        → All (λ root. d ≡ root ++ codes "/" ++ name → leb (count_char 47 root) 1 ≡ false)
            below_root)

weaken_each :
    {P Q : Text → Type 0} (xs : List Text) → ((x : Text) → P x → Q x) → All P xs → All Q xs
weaken_each [] f all = tt
weaken_each (x ∷ xs) f all = (f x all.0, weaken_each xs f all.1)

or-left : (a b : Bool) → (a || b) ≡ false → a ≡ false
or-left a b h = ground (arith, h)

or-right : (a b : Bool) → (a || b) ≡ false → b ≡ false
or-right a b h = ground (arith, h)

not_or : (a b : Bool) → (not a || b) ≡ false → a ≡ true
not_or a b h = ground (arith, h)

no_root : (d : Text) → is_sensitive d ≡ false → is_one_of d forbidden_roots ≡ false
unfolding is_sensitive
no_root d safe =
    or-left (is_one_of d forbidden_roots) (is_below d forbidden_roots && leb (count_char 47 d) 2)
      safe

is_sensitive-IsOutside : (d : Text) → is_sensitive d ≡ false → IsOutside d
unfolding IsOutside
is_sensitive-IsOutside d safe = (
  no_root d safe,
  λ name no_slash.
      weaken_each
        {P = λ root. is_sensitive (root ++ codes "/" ++ name) ≡ leb (count_char 47 root) 1}
        {Q = λ root. d ≡ root ++ codes "/" ++ name → leb (count_char 47 root) 1 ≡ false} below_root
        (λ root e same. sym e ∙ ap is_sensitive (sym same) ∙ safe)
        (is_sensitive_below name no_slash),
)

-- The resolved path of a workspace that exists.
abbrev pub IsOutsideReal : Option Text → Type 0
IsOutsideReal none = Unit
IsOutsideReal (some r) = IsOutside r

real-IsOutside : (o : Option Text) → is_sensitive_real o ≡ false → IsOutsideReal o
unfolding is_sensitive_real
real-IsOutside none safe = tt
real-IsOutside (some r) safe = is_sensitive-IsOutside r safe

-- If validate_session_workspace_dir accepts a path, with any answer of the file system, the path
-- was absolute and has no component `..`, the result is the path in pathlib's spelling without
-- slashes at its end, and neither it nor the real path that it resolves to is a forbidden root or
-- directly below a forbidden root of one component.
pub validate_session_workspace_dir-IsOutside :
    (real : Text → Option Text) (dir d : Text)
    → validate_session_workspace_dir real dir ≡ some d
    → (is_absolute dir ≡ true)
      × (d ≡ without_slashes (path_str dir))
      × (is_one_of (codes "..") (parts_of dir) ≡ false)
      × IsOutside d
      × IsOutsideReal (real d)
unfolding validate_session_workspace_dir
validate_session_workspace_dir-IsOutside real dir d ok =
    let n : Text = normpath (path_str dir) in
    let same : Bool = same_text n (without_slashes (path_str dir)) in
    let r =
      accepted (is_empty dir || is_empty (strip dir))
        (has_char 0 dir || has_char 10 dir || has_char 13 dir) (is_absolute dir)
        (not same || is_one_of (codes "..") (parts_of dir)) (is_sensitive n)
        (is_sensitive_real (real n)) n d ok in
    (
      r.1,
      sym r.0 ∙ same_text→eq n (without_slashes (path_str dir)) (not_or same _ r.2),
      or-right (not same) _ r.2,
      is_sensitive-IsOutside d (ap is_sensitive (sym r.0) ∙ r.3),
      real-IsOutside (real d) (ap (λ x. is_sensitive_real (real x)) (sym r.0) ∙ r.4),
    )
