-- ===== src/Reconcile/Status/Phases.antt =====
-- agent/internal/reconcile/status.go: the counts and the phases that CurrentStatus reports.
use devopsellence.Base.{
  ℕ, ◌+◌, ◌≤◌, true, not, ◌&&◌, ◌||◌, ◌≡◌, refl, sym, ap, subst, ◌∙◌, ◌⊎◌, inl, inr, Option, none,
  some, List, [], ◌∷◌, ◌++◌, any, length, length-append, All, In, here, there, Text, ltb, is_empty,
  ◌==◌, ok, bind-ok, arith, Bool-cases, if◌then◌else◌,
}
use devopsellence.Base.Filtering.{All-map, In-keep}
use devopsellence.Engine.{ContainerState}
use devopsellence.DesiredState.Types.{DesiredState, Environment, Service}
use devopsellence.Reconcile.Status.{
  Phase, Summary, ServiceStatus, EnvironmentStatus, Observer, Progress, phase_severity, is_error,
  containers_of, container_service_key, pick_loop, pick_current_container, add_status, add_service,
  add_services, started, add_environments, current_status,
}

-- The services in error.
unfoldable pub errors : List ServiceStatus → ℕ
errors [] = 0
errors (s ∷ ss) = (if is_error s.phase then 1 else 0) + errors ss

errors-append : (xs ys : List ServiceStatus) → errors (xs ++ ys) ≡ errors xs + errors ys
unfolding errors
errors-append [] ys = omega arith
errors-append (x ∷ xs) ys = ground (arith, errors-append xs ys)

-- The sum of a count over the environments.
unfoldable pub total : (List ServiceStatus → ℕ) → List EnvironmentStatus → ℕ
total count [] = 0
total count (e ∷ es) = count e.services + total count es

total-append :
    (count : List ServiceStatus → ℕ) (xs ys : List EnvironmentStatus)
    → total count (xs ++ ys) ≡ total count xs + total count ys
unfolding total
total-append count [] ys = omega arith
total-append count (x ∷ xs) ys = omega (arith, total-append count xs ys)

-- The phase is the worst one of the services: none is worse, and it is settled or one has it.
pub record IsWorst (phase : Phase) (services : List ServiceStatus) : Type 0 where
  pub none_worse : All (λ s. phase_severity s.phase ≤ phase_severity phase) services
  pub attained :
      (phase_severity phase ≡ 0) ⊎ ((s : ServiceStatus) × (In s services × (s.phase ≡ phase)))

All-snoc {ℓ κ} :
    {A : Type ℓ} (P : A → Type κ) (xs : List A) (x : A) → All P xs → P x → All P (xs ++ x ∷ [])
All-snoc P [] x a p = (p, tt)
All-snoc P (y ∷ ys) x a p = (a.0, All-snoc P ys x a.1 p)

In-left {ℓ} : {A : Type ℓ} {x : A} (xs ys : List A) → In x xs → In x (xs ++ ys)
In-left [] ys i = elim i [ ]
In-left (y ∷ xs) ys (here e) = here e
In-left (y ∷ xs) ys (there i) = there (In-left xs ys i)

In-last {ℓ} : {A : Type ℓ} (xs : List A) (x : A) → In x (xs ++ x ∷ [])
In-last [] x = here refl
In-last (y ∷ ys) x = there (In-last ys x)

IsWorst-snoc :
    (phase : Phase) (services : List ServiceStatus) (s : ServiceStatus)
    → IsWorst phase services
    → IsWorst
        (if ltb (phase_severity phase) (phase_severity s.phase) then s.phase else phase)
        (services ++ s ∷ [])
IsWorst-snoc phase services s w =
    elim (Bool-cases (ltb (phase_severity phase) (phase_severity s.phase))) [
      | inl e ↦ rw e (record {
        none_worse =
            All-snoc (λ t. phase_severity t.phase ≤ phase_severity s.phase) services s
              (All-map (λ t. phase_severity t.phase ≤ phase_severity phase) _
                (λ t le. ground (arith, e, le)) services w.none_worse)
              (omega arith);
        attained = inr (s, (In-last services s, refl));
      })
      | inr e ↦ rw e (record {
        none_worse =
            All-snoc (λ t. phase_severity t.phase ≤ phase_severity phase) services s w.none_worse
              (ground (arith, e));
        attained = elim w.attained [
          | inl z ↦ inl z
          | inr (t, (i, same)) ↦ inr (t, (In-left services (s ∷ []) i, same))
        ];
      })
    ]

-- What an environment in work has, from the counts at its start.
record Counted (from : Summary) (p : Progress) : Type 0 where
  environments_kept : p.summary.environments ≡ from.environments
  services_counted : p.summary.services ≡ from.services + length p.status.services
  errors_counted : p.summary.unhealthy_services ≡ from.unhealthy_services + errors p.status.services
  worst : IsWorst p.status.phase p.status.services

add_status-Counted :
    (from : Summary) (s : ServiceStatus) (inspected : List Text) (p : Progress)
    → Counted from p
    → Counted from (add_status s inspected p)
unfolding add_status
add_status-Counted from s inspected p c = record {
  environments_kept = c.environments_kept;
  services_counted = omega (arith, c.services_counted, length-append p.status.services (s ∷ []));
  errors_counted =
      unfold errors in ground (arith, c.errors_counted, errors-append p.status.services (s ∷ []));
  worst = IsWorst-snoc p.status.phase p.status.services s c.worst;
}

module _ (observer : Observer) (existing : List ContainerState) where
  add_services-Counted :
      (from : Summary) (name : Text) (ss : List (Option Service)) (p : Progress)
      → Counted from p
      → Counted from (add_services observer existing name ss p)
  unfolding add_services add_service
  add_services-Counted from name [] p c = c
  add_services-Counted from name (none ∷ ss) p c = add_services-Counted from name ss p c
  add_services-Counted from name (some s ∷ ss) p c =
      add_services-Counted from name ss _ (add_status-Counted from _ _ p c)

-- The report of the environments: the counts are those of what is listed, and each phase is the
-- worst of its services.
pub record Agrees (summary : Summary) (done : List EnvironmentStatus) : Type 0 where
  pub environments : summary.environments ≡ length done
  pub services : summary.services ≡ total length done
  pub unhealthy : summary.unhealthy_services ≡ total errors done
  pub phases : All (λ e. IsWorst e.phase e.services) done

module _ (observer : Observer) (existing : List ContainerState) where
  add_environments-Agrees :
      (desired : DesiredState) (es : List (Option Environment)) (summary : Summary)
      (done : List EnvironmentStatus) (inspected : List Text)
      → Agrees summary done
      → let r = add_environments observer existing desired es summary done inspected in
        Agrees (r.0) (r.1)
  unfolding add_environments phase_severity
  add_environments-Agrees desired [] summary done inspected a = a
  add_environments-Agrees desired (none ∷ es) summary done inspected a =
      add_environments-Agrees desired es summary done inspected a
  add_environments-Agrees desired (some e ∷ es) summary done inspected a =
      let start = started observer existing desired e summary inspected in
      let p = add_services observer existing e.name e.services start in
      let c = add_services-Counted observer existing start.summary e.name e.services start (record {
        environments_kept = refl;
        services_counted = omega arith;
        errors_counted = unfold errors in omega arith;
        worst = record { none_worse = tt; attained = inl refl };
      }) in
      add_environments-Agrees desired es p.summary (done ++ p.status ∷ []) p.inspected (record {
        environments =
            omega (arith, c.environments_kept, a.environments, length-append done (p.status ∷ []));
        services =
            unfold total in
            omega (arith, c.services_counted, a.services, total-append length done (p.status ∷ []));
        unhealthy =
            unfold total in
            omega (arith, c.errors_counted, a.unhealthy, total-append errors done (p.status ∷ []));
        phases = All-snoc (λ x. IsWorst x.phase x.services) done p.status a.phases c.worst;
      })

-- The summary that CurrentStatus reports counts the environments and the services that it lists,
-- and its unhealthy services are those listed in error. The phase of each environment is the worst
-- of its services: none is worse, and it is settled or some service is in it.
pub current_status-Agrees :
    (observer : Observer) (desired : DesiredState) (summary : Summary)
    (environments : List EnvironmentStatus)
    → current_status observer desired ≡ ok (summary, environments)
    → Agrees summary environments
unfolding current_status
current_status-Agrees observer desired summary environments h =
    let (existing, (listed, h1)) = bind-ok observer.list_managed _ (summary, environments) h in
    subst (λ (r : Summary × List EnvironmentStatus). Agrees (r.0) (r.1)) (ground (arith, h1))
      (add_environments-Agrees observer existing desired desired.environments
        (record { environments = 0; services = 0; unhealthy_services = 0 }) [] []
        (unfold total in
          record { environments = refl; services = refl; unhealthy = refl; phases = tt }))

pick_loop-In :
    (best : ContainerState) (cs : List ContainerState) → In (pick_loop best cs) (best ∷ cs)
unfolding pick_loop
pick_loop-In best [] = here refl
pick_loop-In best (c ∷ cs) = elim (Bool-cases (c.running && not best.running)) [
  | inl e ↦ rw (e, pick_loop) (there (pick_loop-In c cs))
  | inr e ↦ elim (pick_loop-In best cs) [
    | here q ↦ rw (e, pick_loop) (here q)
    | there i ↦ rw (e, pick_loop) (there (there i))
  ]
]

running-pick_loop :
    (best : ContainerState) (cs : List ContainerState)
    → (pick_loop best cs).running ≡ (best.running || any (λ c. c.running) cs)
unfolding pick_loop
running-pick_loop best [] = ground arith
running-pick_loop best (c ∷ cs) = elim (Bool-cases (c.running && not best.running)) [
  | inl e ↦ rw (e, pick_loop) (running-pick_loop c cs ∙ ground (arith, e))
  | inr e ↦ rw (e, pick_loop) (running-pick_loop best cs ∙ ground (arith, e))
]

pick_current_container-In :
    (cs : List ContainerState) (x : ContainerState)
    → pick_current_container cs ≡ some x
    → In x cs × (x.running ≡ any (λ y. y.running) cs)
unfolding pick_current_container
pick_current_container-In [] x g = absurd (ground arith)
pick_current_container-In (d ∷ ds) x g =
    let same : pick_loop d (d ∷ ds) ≡ x = ground (arith, g) in
    (
      elim (subst (λ z. In z (d ∷ (d ∷ ds))) same (pick_loop-In d (d ∷ ds))) [
        | here q ↦ here q
        | there k ↦ k
      ],
      ap (λ (z : ContainerState). z.running) (sym same)
          ∙ (running-pick_loop d (d ∷ ds) ∙ ground arith),
    )

-- The container that stands for a service is one of the engine's with the service's key; it runs
-- exactly if any of these runs.
pub pick_current_container_lem :
    (existing : List ContainerState) (key : Text) (c : ContainerState)
    → pick_current_container (containers_of key existing) ≡ some c
    → (In c existing × ((container_service_key c == key) ≡ true))
      × (c.running ≡ any (λ x. x.running) (containers_of key existing))
unfolding containers_of
pick_current_container_lem existing key c h =
    let (i, runs) = pick_current_container-In (containers_of key existing) c h in
    let (j, test) =
      In-keep (λ x. not (is_empty x.service) && container_service_key x == key) existing i in
    ((j, ground (arith, test)), runs)
