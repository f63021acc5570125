-- ===== src/Execution/Container/Run/Effects.antt =====
-- tako_vm/execution/worker.py: what a run leaves in docker and in the circuit breaker.
use tako_vm.Prelude.{
  ℕ, Option, none, some, Bool, true, false, not, List, [], ◌∷◌, ◌++◌, ◌≡◌, ◌⊎◌, All, refl, inl, inr,
  if◌then◌else◌, Bool-cases,
}
use tako_vm.Security.{Text, validate_docker_run_args}
use tako_vm.Security.Image.{validate_docker_image}
use tako_vm.Texts.{codes}
use tako_vm.JobTypes.{JobType}
use tako_vm.Execution.Health.{CircuitBreakerConfig, DockerCircuitBreaker, is_available}
use tako_vm.Execution.Docker.{
  nonempty, generate_container_name, prepare_requirements_file, Prepared, prepared, refused, Ran,
}
use tako_vm.Execution.Container.{
  Settings, Host, Workspace, run_command, resolve_image, Image, resolved, rejected, base_or_default,
  requirements_of, has_any, image_name_of, image_exists, image_has_executor_entrypoint,
  exists_command, entrypoint_command, ImageError, Source,
}
use tako_vm.Execution.Container.Run.{
  DockerRun, Denial, denied, Ended, logged, after_run, start_run, prepared_run, with_image,
  run_container, breaker_open, unsafe_command,
}

-- An image that is chosen is one that validate_docker_image accepts.
abbrev pub IsValidImage : Image → Type 0
IsValidImage (rejected why) = Unit
IsValidImage (resolved image source) = validate_docker_image image ≡ true

-- A command that asks for an image.
abbrev pub IsInspection : List Text → Type 0
IsInspection c = (image : Text) × ((c ≡ exists_command image) ⊎ (c ≡ entrypoint_command image))

-- A choice of an image gives docker such commands only.
abbrev IsChosen : Image × List (List Text) → Type 0
IsChosen (i, log) = IsValidImage i × All IsInspection log

image_exists-All : (h : Host) (image : Text) → All IsInspection (image_exists h image).1
unfolding image_exists
image_exists-All h image = elim (Bool-cases (h.exists_cached image)) [
  | inl known ↦ rw (image_exists, known) tt
  | inr unknown ↦ rw (image_exists, unknown) ((image, inl refl), tt)
]

image_has_executor_entrypoint-All :
    (h : Host) (image : Text) → All IsInspection (image_has_executor_entrypoint h image).1
unfolding image_has_executor_entrypoint
image_has_executor_entrypoint-All h image = elim (Bool-cases (h.entrypoint_cached image)) [
  | inl known ↦ rw (image_has_executor_entrypoint, known) tt
  | inr unknown ↦ rw (image_has_executor_entrypoint, unknown) ((image, inr refl), tt)
]

pub All-append :
    (P : List Text → Type 0) (xs ys : List (List Text)) → All P xs → All P ys → All P (xs ++ ys)
All-append P [] ys h k = k
All-append P (x ∷ xs) ys h k = (h.0, All-append P xs ys h.1 k)

base_or_default-IsChosen :
    (s : Settings) (h : Host) (image : Option Text) → IsChosen (base_or_default s h image)
unfolding base_or_default
base_or_default-IsChosen s h none = elim (Bool-cases (validate_docker_image s.docker_image)) [
  | inl ok ↦ rw (base_or_default, ok) (ok, tt)
  | inr bad ↦ rw (base_or_default, bad) (tt, tt)
]
base_or_default-IsChosen s h (some image) =
    by_test (validate_docker_image image) refl (image_has_executor_entrypoint h image).0
      (image_has_executor_entrypoint-All h image)
  where
    by_test :
        (b : Bool)
        → validate_docker_image image ≡ b
        → (e : Option Bool) → All IsInspection (image_has_executor_entrypoint h image).1
        → IsChosen (
            if not b
            then (rejected ImageError.invalid_base, [])
            else if elim e [ none ↦ false | some t ↦ t ]
            then (resolved image Source.base, (image_has_executor_entrypoint h image).1)
            else (rejected ImageError.no_entrypoint, (image_has_executor_entrypoint h image).1))
    by_test false e entry asked = (tt, tt)
    by_test true e none asked = (tt, asked)
    by_test true e (some true) asked = (e, asked)
    by_test true e (some false) asked = (tt, asked)

pub resolve_image-IsChosen :
    (s : Settings) (h : Host) (j : JobType) → IsChosen (resolve_image s h j)
unfolding resolve_image
resolve_image-IsChosen s h j =
    by_test (validate_docker_image (image_name_of j)) refl (image_exists h (image_name_of j)).0
      (elim (image_has_executor_entrypoint h (image_name_of j)).0 [ none ↦ false | some t ↦ t ])
  where
    there : List (List Text)
    there = (image_exists h (image_name_of j)).1

    entry : List (List Text)
    entry = (image_has_executor_entrypoint h (image_name_of j)).1

    other : Image × List (List Text)
    other = base_or_default s h (nonempty j.base_image)

    by_test :
        (b : Bool)
        → validate_docker_image (image_name_of j) ≡ b
        → (found carries : Bool)
        → IsChosen (
            if not b
            then other
            else if not found
            then (other.0, there ++ other.1)
            else if carries
            then (resolved (image_name_of j) Source.built, there ++ entry)
            else (other.0, there ++ entry ++ other.1))
    by_test false e found carries = base_or_default-IsChosen s h (nonempty j.base_image)
    by_test true e false carries =
        let o = base_or_default-IsChosen s h (nonempty j.base_image) in
        (o.0, All-append IsInspection there other.1 (image_exists-All h (image_name_of j)) o.1)
    by_test true e true true = (
      e,
      All-append IsInspection there entry (image_exists-All h (image_name_of j))
          (image_has_executor_entrypoint-All h (image_name_of j)),
    )
    by_test true e true false =
        let o = base_or_default-IsChosen s h (nonempty j.base_image) in
        (
          o.0,
          All-append IsInspection (there ++ entry) other.1
              (All-append IsInspection there entry (image_exists-All h (image_name_of j))
                (image_has_executor_entrypoint-All h (image_name_of j)))
              o.1,
        )

abbrev pub is_open : Denial → Bool
is_open breaker_open = true
is_open _ = false

module _ (config : CircuitBreakerConfig) (docker : List Text → Ran) (now later : ℕ)
    (shown_float : ℕ → Text) (s : Settings) (h : Host) (w : Workspace) (fresh : Text)
    (timeout startup_timeout : ℕ) (j : JobType) (extra : List Text) (job_id : Option Text)
    (attempt : ℕ) (b : DockerCircuitBreaker) (run : DockerRun) where
  abbrev name_of_run : Text
  name_of_run = generate_container_name fresh (codes "tako") job_id attempt

  abbrev command : Bool → Text → List Text
  command has_deps image =
      run_command shown_float s h w timeout startup_timeout j has_deps name_of_run image job_id

  abbrev checked : DockerCircuitBreaker
  checked = (is_available config now b).1

  -- What holds of a refusal by the breaker, of each other one and of each run of an accepted
  -- command, after inspections of images, holds of the method.
  module _ (P : Ended → Type 0) (shut : P (denied breaker_open, checked, []))
      (refusal : (before : List (List Text))
        → All IsInspection before
        → (d : Denial) → is_open d ≡ false
        → P (logged before (denied d, checked, [])))
      (running : (before : List (List Text))
        → All IsInspection before
        → (has_deps : Bool) (image : Text) → validate_docker_image image ≡ true
        → validate_docker_run_args (command has_deps image) ≡ true
        → P (
            logged before (
              after_run config docker now later name_of_run
                (command has_deps image)
                checked
                run))) where
    prepared_run-cases :
        (before : List (List Text))
        → All IsInspection before
        → (image : Text) (p : Prepared) → validate_docker_image image ≡ true
        → P (
            logged before (
              prepared_run config docker now later shown_float s h w fresh timeout startup_timeout j
                job_id attempt image p checked run))
    unfolding prepared_run start_run
    prepared_run-cases before asked image (refused why) valid =
        refusal before asked (Denial.requirements why) refl
    prepared_run-cases before asked image (prepared reqs) valid =
        elim (Bool-cases (validate_docker_run_args (command (has_any reqs) image))) [
          | inl ok ↦
              rw (prepared_run, start_run, ok) (running before asked (has_any reqs) image valid ok)
          | inr bad ↦ rw (prepared_run, start_run, bad) (refusal before asked unsafe_command refl)
        ]

    with_image-cases :
        (before : List (List Text))
        → All IsInspection before
        → (i : Image) → IsValidImage i
        → P (
            logged before (
              with_image config docker now later shown_float s h w fresh timeout startup_timeout j
                extra job_id attempt i checked run))
    unfolding with_image
    with_image-cases before asked (rejected why) valid =
        refusal before asked (Denial.image_error why) refl
    with_image-cases before asked (resolved image source) valid =
        prepared_run-cases before asked image
          (prepare_requirements_file s.allow_runtime_requirements 50
            (requirements_of source j extra))
          valid

    pub run_container-cases : P (
        run_container config docker now later shown_float s h w fresh timeout startup_timeout j
          extra job_id attempt b run)
    unfolding run_container
    run_container-cases = elim (Bool-cases (is_available config now b).0) [
      | inl available ↦
          let chosen = resolve_image-IsChosen s h j in
          rw (run_container, available)
            (with_image-cases (resolve_image s h j).1 chosen.1 (resolve_image s h j).0 chosen.0)
      | inr closed ↦ rw (run_container, closed) shut
    ]
