-- ===== src/Execution/Container/Parts.antt =====
-- tako_vm/execution/worker.py: the isolation that the parts of a docker command give.
use tako_vm.Prelude.{
  append-nil, Option, none, some, Bool, true, false, ◌&&◌, if◌then◌else◌, Bool-cases, inl, inr,
  List, [], ◌∷◌, ◌++◌, ◌≡◌, refl,
}
use tako_vm.Security.{Text, same_text}
use tako_vm.Texts.{shown, codes, starts_with}
use tako_vm.Execution.Docker.{ulimit_args, when, each}
use tako_vm.Execution.Container.{
  Settings, Host, seccomp_args, Workspace, tmpfs_arg, resource_args, mount_args, network_arg,
}
use tako_vm.Execution.Container.Select.{
  Flag, bind, cap_add, cap_drop, memory, network, pids, prefix, privileged, read_only, select,
  tmpfs, ulimit, volume, user, runtime, security, security_of,
}

-- What the capabilities, the network and the temporary directory give to each kind of option.
unfoldable pub caps_of : Flag → Bool → List Text
unfolding codes
caps_of cap_drop caps = when caps (codes "--cap-drop=ALL" ∷ [])
caps_of cap_add caps =
    when caps (codes "--cap-add=SETUID" ∷ codes "--cap-add=SETGID" ∷ codes "--cap-add=KILL" ∷ [])
caps_of _ caps = []

unfoldable pub network_of : Flag → Bool → List Text
unfolding codes
network_of network bridge =
    (if bridge then codes "--network=bridge" else codes "--network=none") ∷ []
network_of _ bridge = []

unfoldable pub runtime_of : Flag → List Text → List Text
runtime_of runtime args = args
runtime_of _ args = []

unfoldable pub user_of : Flag → Bool → List Text
unfolding codes
user_of user b = if b then codes "--user=1000:1000" ∷ [] else []
user_of _ b = []

unfoldable pub meta_of : Flag → Option Text → List Text
unfolding codes
meta_of bind o = each o (λ d. codes "--mount=type=bind,source=" ++ d ++ codes ",target=/tako-meta")
meta_of _ o = []

pub select-caps :
    (k : Flag) (caps : Bool)
    → select (prefix k) (
        when caps (
          codes "--cap-drop=ALL"
          ∷ codes "--cap-add=SETUID"
          ∷ codes "--cap-add=SETGID"
          ∷ codes "--cap-add=KILL"
          ∷ []))
      ≡ caps_of k caps
unfolding prefix codes starts_with select caps_of
select-caps read_only true = refl
select-caps read_only false = refl
select-caps _ true = refl
select-caps _ false = refl

pub select-runtime :
    (k : Flag) (b : Bool) (t : Text)
    → select (prefix k) (when b ((codes "--runtime=" ++ t) ∷ []))
      ≡ runtime_of k (when b ((codes "--runtime=" ++ t) ∷ []))
unfolding prefix codes starts_with select runtime_of
select-runtime read_only true t = refl
select-runtime read_only false t = refl
select-runtime _ true t = refl
select-runtime _ false t = refl

pub select-user :
    (k : Flag) (b : Bool) → select (prefix k) (when b (codes "--user=1000:1000" ∷ [])) ≡ user_of k b
unfolding prefix codes starts_with select user_of
select-user read_only true = refl
select-user read_only false = refl
select-user _ true = refl
select-user _ false = refl

pub select-network_arg :
    (k : Flag) (b : Bool) → select (prefix k) (network_arg b ∷ []) ≡ network_of k b
unfolding prefix codes starts_with select network_arg network_of
select-network_arg read_only true = refl
select-network_arg read_only false = refl
select-network_arg _ true = refl
select-network_arg _ false = refl

pub select-meta :
    (k : Flag) (o : Option Text)
    → select
        (prefix k)
        (each o (λ d. codes "--mount=type=bind,source=" ++ d ++ codes ",target=/tako-meta"))
      ≡ meta_of k o
unfolding prefix codes starts_with select meta_of
select-meta read_only none = refl
select-meta read_only (some d) = refl
select-meta _ none = refl
select-meta _ (some d) = refl

module _ (caps userns bridge has_deps : Bool) where
  -- The options that isolate a container, by kind, written out.
  unfoldable pub isolation : Text → Settings → Host → Workspace → Flag → List Text
  unfolding codes same_text shown
  isolation mem s h w read_only = codes "--read-only" ∷ []
  isolation mem s h w cap_drop = if caps then codes "--cap-drop=ALL" ∷ [] else []
  isolation mem s h w cap_add =
      if caps
      then codes "--cap-add=SETUID" ∷ codes "--cap-add=SETGID" ∷ codes "--cap-add=KILL" ∷ []
      else []
  isolation mem s h w network =
      (if bridge then codes "--network=bridge" else codes "--network=none") ∷ []
  isolation mem s h w user = if userns then codes "--user=1000:1000" ∷ [] else []
  isolation mem s h w tmpfs =
      (if has_deps
        then codes "--tmpfs=/tmp:rw,exec,nosuid,size=300m"
        else codes "--tmpfs=/tmp:rw,noexec,nosuid,size=" ++ s.container_limits.tmpfs_size)
      ∷ []
  isolation mem s h w bind =
      (codes "--mount=type=bind,source=" ++ w.code_dir ++ codes ",target=/code,readonly")
      ∷ (codes "--mount=type=bind,source=" ++ w.input_dir ++ codes ",target=/input,readonly")
      ∷ (codes "--mount=type=bind,source=" ++ w.output_dir ++ codes ",target=/output")
      ∷ elim w.meta_dir [
        | none ↦ []
        | some d ↦ (codes "--mount=type=bind,source=" ++ d ++ codes ",target=/tako-meta") ∷ []
      ]
  isolation mem s h w memory = (codes "--memory=" ++ mem) ∷ (codes "--memory-swap=" ++ mem) ∷ []
  isolation mem s h w pids = (codes "--pids-limit=" ++ shown s.container_limits.pids_limit) ∷ []
  isolation mem s h w ulimit =
      let l = s.container_limits in
      (codes "--ulimit=nofile=" ++ shown l.nofile_soft ++ codes ":" ++ shown l.nofile_hard)
      ∷ (codes "--ulimit=nproc=" ++ shown l.nproc_soft ++ codes ":" ++ shown l.nproc_hard)
      ∷ (codes "--ulimit=fsize=" ++ shown l.fsize)
      ∷ []
  isolation mem s h w security = elim s.seccomp_profile_path [
    | none ↦ []
    | some path ↦
        if s.enable_seccomp && (h.is_native_linux && h.exists path)
        then (codes "--security-opt=seccomp=" ++ path) ∷ []
        else []
  ]
  isolation mem s h w runtime =
      if same_text s.runtime (codes "runsc") then (codes "--runtime=" ++ s.runtime) ∷ [] else []
  isolation mem s h w privileged = []
  isolation mem s h w volume = []

  select-tmpfs_arg :
      (size : Text)
      → select (prefix tmpfs) (tmpfs_arg has_deps size ∷ [])
        ≡ (if has_deps
            then codes "--tmpfs=/tmp:rw,exec,nosuid,size=300m"
            else codes "--tmpfs=/tmp:rw,noexec,nosuid,size=" ++ size)
          ∷ []
  unfolding prefix codes starts_with select tmpfs_arg
  select-tmpfs_arg size = elim (Bool-cases has_deps) [
    | inl exec ↦ rw (tmpfs_arg, exec) refl
    | inr without ↦ rw (tmpfs_arg, without) refl
  ]

  -- The parts that are left of a command are decided by the kind.
  pub select-parts :
      (name mem cpus : Text) (s : Settings) (h : Host) (w : Workspace) (k : Flag)
      → select (prefix k) (codes "docker" ∷ codes "run" ∷ [])
          ++ select (prefix k) (
              (codes "--name=" ++ name)
              ∷ codes "--label=tako-vm-executor"
              ∷ codes "--init"
              ∷ codes "--read-only"
              ∷ [])
          ++ caps_of k caps
          ++ runtime_of k
              (when (same_text s.runtime (codes "runsc")) ((codes "--runtime=" ++ s.runtime) ∷ []))
          ++ network_of k bridge
          ++ user_of k userns
          ++ select (prefix k) (resource_args mem cpus s.container_limits)
          ++ select (prefix k) (mount_args w)
          ++ select (prefix k) (tmpfs_arg has_deps s.container_limits.tmpfs_size ∷ [])
          ++ meta_of k w.meta_dir
          ++ security_of k (seccomp_args s h)
        ≡ isolation mem s h w k
  unfolding prefix codes starts_with select isolation caps_of network_of meta_of user_of runtime_of
      security_of resource_args ulimit_args mount_args tmpfs_arg seccomp_args
  select-parts name mem cpus s h w read_only = refl
  select-parts name mem cpus s h w cap_drop = simp append-nil
  select-parts name mem cpus s h w cap_add = simp append-nil
  select-parts name mem cpus s h w runtime = simp append-nil
  select-parts name mem cpus s h w user = simp append-nil
  select-parts name mem cpus s h w tmpfs = select-tmpfs_arg s.container_limits.tmpfs_size
  select-parts name mem cpus s h w bind = by_meta w.meta_dir
    where
      by_meta :
          (o : Option Text)
          → mount_args w ++ meta_of bind o ++ []
            ≡ mount_args w ++ elim o [
              | none ↦ []
              | some d ↦ (codes "--mount=type=bind,source=" ++ d ++ codes ",target=/tako-meta") ∷ []
            ]
      by_meta none = refl
      by_meta (some d) = refl
  select-parts name mem cpus s h w _ = refl
