-- ===== src/Execution/Container/Select.antt =====
-- tako_vm/execution/worker.py: the arguments of a docker command by the text that they start with, for
-- the parts of the command.
use tako_vm.Prelude.{
  ℕ, Option, none, some, Bool, true, false, ◌&&◌, List, [], ◌∷◌, ◌++◌, ◌≡◌, refl, arith, ◌∙◌,
  if◌then◌else◌,
}
use tako_vm.Security.{Text, validate_env_key, validate_env_value}
use tako_vm.Security.Image.{StartsAlnum}
use tako_vm.Texts.{codes, starts_with}
use tako_vm.Execution.Docker.{nonempty, when, each}
use tako_vm.Execution.Container.{
  Settings, Host, cache_args, seccomp_args, env_args, proxy_args, timeout_args,
}

-- The arguments that start with a text.
unfoldable pub select : Text → List Text → List Text
unfolding starts_with
select p [] = []
select p (x ∷ xs) = let rest = select p xs in if starts_with p x then x ∷ rest else rest

pub select-append :
    (p : Text) (xs ys : List Text) → select p (xs ++ ys) ≡ select p xs ++ select p ys
unfolding select
select-append p [] ys = refl
select-append p (x ∷ xs) ys = ground (arith, select-append p xs ys)

pub select-when :
    (p : Text) (b : Bool) (xs : List Text) → select p (when b xs) ≡ when b (select p xs)
unfolding select
select-when p true xs = refl
select-when p false xs = refl

pub when-nil : (b : Bool) → when b [] ≡ []
when-nil true = refl
when-nil false = refl

pub select-each :
    (p : Text) (o : Option Text) (f : Text → Text)
    → ((t : Text) → starts_with p (f t) ≡ false)
    → select p (each o f) ≡ []
unfolding select
select-each p none f h = refl
select-each p (some t) f h = rw (h t) refl

-- The options that isolate a container.
pub data Flag : Type 0 where
  read_only cap_drop cap_add network user tmpfs bind memory pids ulimit security runtime : Flag
  privileged volume : Flag

unfoldable pub prefix : Flag → Text
unfolding codes
prefix read_only = codes "--read-only"
prefix cap_drop = codes "--cap-drop"
prefix cap_add = codes "--cap-add"
prefix network = codes "--net"
prefix user = codes "--user"
prefix security = codes "--security-opt"
prefix runtime = codes "--runtime"
prefix tmpfs = codes "--tmpfs"
prefix bind = codes "--mount=type=bind"
prefix memory = codes "--memory"
prefix pids = codes "--pids-limit"
prefix ulimit = codes "--ulimit"
prefix privileged = codes "--privileged"
prefix volume = codes "-v"

pub prefix-env : (k : Flag) (t : Text) → starts_with (prefix k) (codes "--env=" ++ t) ≡ false
unfolding prefix codes starts_with
prefix-env read_only t = refl
prefix-env _ t = refl

pub prefix-label :
    (k : Flag) (t : Text)
    → starts_with (prefix k) (codes "--label=tako-vm.execution-id=" ++ t) ≡ false
unfolding prefix codes starts_with
prefix-label read_only t = refl
prefix-label _ t = refl

pub select-label :
    (k : Flag) (o : Option Text)
    → select (prefix k) (each o (λ id. codes "--label=tako-vm.execution-id=" ++ id)) ≡ []
select-label k o = select-each (prefix k) o _ (prefix-label k)

pub select-proxy :
    (k : Flag) (has_deps : Bool) (o : Option Text) → select (prefix k) (proxy_args has_deps o) ≡ []
unfolding proxy_args select codes
select-proxy k false o = refl
select-proxy k true o =
    select-each (prefix k) (nonempty o) (λ u. codes "--env=TAKO_DEPENDENCY_PROXY_URL=" ++ u)
      (λ t. prefix-env k (codes "TAKO_DEPENDENCY_PROXY_URL=" ++ t))

pub select-env_args : (k : Flag) (env : List (Text × Text)) → select (prefix k) (env_args env) ≡ []
unfolding env_args select codes
select-env_args k [] = refl
select-env_args k ((key, value) ∷ env) =
    select-append (prefix k)
      (when (validate_env_key key && validate_env_value (some value))
        ((codes "--env=" ++ key ++ codes "=" ++ value) ∷ []))
      (env_args env)
    ∙ rw (select-env_args k env) (kept (validate_env_key key && validate_env_value (some value)))
  where
    kept :
        (b : Bool)
        → select (prefix k) (when b ((codes "--env=" ++ key ++ codes "=" ++ value) ∷ [])) ++ [] ≡ []
    kept false = refl
    kept true = rw (prefix-env k (key ++ codes "=" ++ value)) refl

pub select-timeout_args :
    (k : Flag) (startup_timeout timeout : ℕ)
    → select (prefix k) (timeout_args startup_timeout timeout) ≡ []
unfolding prefix codes starts_with select timeout_args
select-timeout_args read_only startup_timeout timeout = refl
select-timeout_args _ startup_timeout timeout = refl

pub select-cache_args :
    (k : Flag) (has_deps enabled : Bool) (scope : Text)
    → select (prefix k) (cache_args has_deps enabled scope) ≡ []
unfolding prefix codes starts_with select cache_args
select-cache_args read_only false enabled scope = refl
select-cache_args _ false enabled scope = refl
select-cache_args read_only true false scope = refl
select-cache_args _ true false scope = refl
select-cache_args read_only true true scope = refl
select-cache_args _ true true scope = refl

-- An argument of --security-opt is of that kind only.
unfoldable pub security_of : Flag → List Text → List Text
security_of security args = args
security_of _ args = []

pub select-seccomp_args :
    (k : Flag) (s : Settings) (h : Host)
    → select (prefix k) (seccomp_args s h) ≡ security_of k (seccomp_args s h)
unfolding seccomp_args select codes security_of prefix starts_with
select-seccomp_args k s h = by_path k s.seccomp_profile_path
  where
    by_test :
        (k : Flag) (b : Bool) (path : Text)
        → select (prefix k) (when b ((codes "--security-opt=seccomp=" ++ path) ∷ []))
          ≡ security_of k (when b ((codes "--security-opt=seccomp=" ++ path) ∷ []))
    by_test read_only true path = refl
    by_test read_only false path = refl
    by_test security true path = refl
    by_test security false path = refl
    by_test _ true path = refl
    by_test _ false path = refl

    by_path :
        (k : Flag) (o : Option Text)
        → select (prefix k) (elim o [
          | none ↦ []
          | some path ↦
              when
                (s.enable_seccomp && (h.is_native_linux && h.exists path))
                ((codes "--security-opt=seccomp=" ++ path) ∷ [])
        ])
          ≡ security_of k (elim o [
            | none ↦ []
            | some path ↦
                when
                  (s.enable_seccomp && (h.is_native_linux && h.exists path))
                  ((codes "--security-opt=seccomp=" ++ path) ∷ [])
          ])
    by_path read_only none = refl
    by_path _ none = refl
    by_path k (some path) =
        by_test k (s.enable_seccomp && (h.is_native_linux && h.exists path)) path

-- The image's name is no option.
pub select-image :
    (k : Flag) (image : Text) → StartsAlnum image → select (prefix k) (image ∷ []) ≡ []
unfolding prefix codes starts_with select
select-image read_only [] start = refl
select-image _ [] start = refl
select-image read_only (c ∷ cs) start = ground (arith, start)
select-image _ (c ∷ cs) start = ground (arith, start)
