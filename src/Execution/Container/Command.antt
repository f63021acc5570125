-- ===== src/Execution/Container/Command.antt =====
-- tako_vm/execution/worker.py: the isolation in the docker command of a job.
use tako_vm.Prelude.{
  ℕ, Option, none, Bool, true, false, ◌||◌, List, [], ◌∷◌, ◌++◌, ◌≡◌, ◌∙◌, append-nil,
}
use tako_vm.Security.{Text}
use tako_vm.Security.Image.{validate_docker_image, validate_docker_image-StartsAlnum}
use tako_vm.Texts.{codes}
use tako_vm.JobTypes.{JobType}
use tako_vm.Execution.Docker.{when, each, base_isolation_args}
use tako_vm.Execution.Container.{
  Settings, Host, Workspace, run_command, network_arg, tmpfs_arg, resource_args, mount_args,
  seccomp_args,
}
use tako_vm.Execution.Container.Select.{
  Flag, prefix, select, select-append, select-cache_args, select-env_args, select-image,
  select-label, select-proxy, select-seccomp_args, select-timeout_args,
}
use tako_vm.Execution.Container.Parts.{
  select-caps, select-runtime, select-user, select-network_arg, select-meta, isolation,
  select-parts,
}

module _ (shown_float : ℕ → Text) (s : Settings) (h : Host) (w : Workspace)
    (timeout startup_timeout : ℕ) (j : JobType) (has_deps : Bool) (name image : Text)
    (job_id : Option Text) (valid : validate_docker_image image ≡ true) where
  -- The arguments that no label, environment, cache or profile gives.
  fixed : List Text
  unfolding base_isolation_args network_arg codes resource_args mount_args tmpfs_arg seccomp_args
  fixed =
      base_isolation_args name s.runtime s.enable_cap_restrictions none false
      ++ (network_arg (j.network_enabled || has_deps) ∷ [])
      ++ when s.enable_userns (codes "--user=1000:1000" ∷ [])
      ++ resource_args j.memory_limit (shown_float j.cpu_limit) s.container_limits
      ++ mount_args w
      ++ (tmpfs_arg has_deps s.container_limits.tmpfs_size ∷ [])
      ++ each w.meta_dir (λ d. codes "--mount=type=bind,source=" ++ d ++ codes ",target=/tako-meta")
      ++ seccomp_args s h

  select-run_command :
      (k : Flag)
      → select
          (prefix k)
          (run_command shown_float s h w timeout startup_timeout j has_deps name image job_id)
        ≡ select (prefix k) fixed
  unfolding run_command base_isolation_args fixed
  select-run_command k = simp (
    append-nil,
    select-append,
    select-label,
    select-proxy,
    select-env_args,
    select-timeout_args,
    select-cache_args,
    select-image k image (validate_docker_image-StartsAlnum image valid),
  )

  select-fixed :
      (k : Flag)
      → select (prefix k) fixed
        ≡ isolation s.enable_cap_restrictions s.enable_userns
            (j.network_enabled || has_deps)
            has_deps
            j.memory_limit
            s
            h
            w
            k
  unfolding fixed base_isolation_args
  select-fixed k =
      simp
        (
          append-nil, select-append, select-caps, select-runtime, select-user, select-network_arg,
          select-meta, select-seccomp_args,
        )
        (select-parts s.enable_cap_restrictions s.enable_userns (j.network_enabled || has_deps)
          has_deps name j.memory_limit (shown_float j.cpu_limit) s h w k)

  -- If the image's name is valid, the options of each isolating kind in the command of a job are
  -- exactly these: --read-only; --cap-drop=ALL with SETUID, SETGID and KILL added back, if
  -- enable_cap_restrictions is set; one network argument, which is bridge if the job type enables
  -- the network or requirements are installed and else none; --user=1000:1000, if enable_userns is
  -- set; one temporary directory, noexec and of the configured size unless requirements are
  -- installed; the mounts of the code and the input, both read-only, of the output and of the
  -- control directory, if there is one; the job type's memory, the configured limits of processes
  -- and of files; the seccomp profile, if it is enabled and there, on a native Linux; the runtime,
  -- if it is runsc; and neither --privileged nor -v.
  pub run_command-isolation :
      (k : Flag)
      → select
          (prefix k)
          (run_command shown_float s h w timeout startup_timeout j has_deps name image job_id)
        ≡ isolation s.enable_cap_restrictions s.enable_userns
            (j.network_enabled || has_deps)
            has_deps
            j.memory_limit
            s
            h
            w
            k
  run_command-isolation k = select-run_command k ∙ select-fixed k
