-- ===== src/Release/Targets/Coverage.antt =====
-- deployment-core/pkg/deploycore/release/service.go: which node runs the release task.
use devopsellence.Base.{
  true, false, ◌≡◌, sym, refl, subst, ◌∙◌, Option, none, some, List, [], ◌∷◌, All, Text, contains,
  contains-all, text_lt, ◌==◌, sort_texts, Dict, arith, Bool-cases, inl, inr, ◌⊎◌,
}
use devopsellence.Base.SortLaws.{contains-sort, IsSorted, sort_by-IsSorted}
use devopsellence.Base.TextLaws.{text_lt_asymm, text_lt_negtrans, text_lt_irrefl, eq_iff, eq_sound}
use devopsellence.Plan.Types.{TaskJson}
use devopsellence.Release.Types.{Node, Release}
use devopsellence.Release.Targets.{
  node_names, nodes_by_name, can_run_named, first_able, release_snapshot_key,
  release_nodes_for_publication,
}

sort_texts-IsSorted : (xs : List Text) → IsSorted text_lt (sort_texts xs)
unfolding sort_texts
sort_texts-IsSorted = sort_by-IsSorted text_lt text_lt_asymm λ x y z. text_lt_negtrans x y z

least_of_sorted :
    (x : Text) (xs : List Text) (n : Text)
    → All (λ y. text_lt y x ≡ false) xs
    → contains (x ∷ xs) n ≡ true
    → text_lt n x ≡ false
unfolding contains
least_of_sorted x xs n a m = elim (Bool-cases (x == n)) [
  | inl e ↦ subst (λ y. text_lt y x ≡ false) (eq_sound x n e) (text_lt_irrefl x)
  | inr e ↦ contains-all (λ y. text_lt y x ≡ false) xs n a (ground arith)
]

module _ (by_name : Dict Node) (kind : Text) where
  first_able-none :
      (names : List Text) (n : Text)
      → first_able by_name kind names ≡ none
      → contains names n ≡ true
      → can_run_named by_name kind n ≡ false
  unfolding first_able contains
  first_able-none [] n h m = absurd (ground arith)
  first_able-none (x ∷ xs) n h m = ground (arith, first_able-none xs n, eq_iff x n)

  first_able-some :
      (names : List Text) (name : Text)
      → IsSorted text_lt names
      → first_able by_name kind names ≡ some name
      → (contains names name ≡ true)
        × (can_run_named by_name kind name ≡ true)
        × ((n : Text)
            → contains names n ≡ true
            → can_run_named by_name kind n ≡ true
            → text_lt n name ≡ false)
  unfolding first_able contains
  first_able-some [] name o h = absurd (ground arith)
  first_able-some (x ∷ xs) name o h = elim (Bool-cases (can_run_named by_name kind x)) [
    | inl able ↦
        let same : x ≡ name = ground arith in
        (
          ground (arith, eq_iff x name),
          subst (λ n. can_run_named by_name kind n ≡ true) same able,
          λ n m _. subst (λ l. text_lt n l ≡ false) same (least_of_sorted x xs n o.0 m),
        )
    | inr unable ↦
        let (m, able, least) = first_able-some xs name o.1 (ground arith) in
        (ground arith, able, λ n i a. ground (arith, least n, eq_iff x n))
  ]

-- A task runs on the node of the least name among those that can run its kind, if there is one.
abbrev pub RunsOn : Dict Node → List Text → Text → Text → Dict Text → Type 0
RunsOn by_name names kind key result =
    ((result ≡ []) × ((n : Text) → contains names n ≡ true → can_run_named by_name kind n ≡ false))
    ⊎ ((name : Text) × (result ≡ (key, name) ∷ [])
        × (contains names name ≡ true)
        × (can_run_named by_name kind name ≡ true)
        × ((n : Text)
            → contains names n ≡ true
            → can_run_named by_name kind n ≡ true
            → text_lt n name ≡ false))

RunsOn-first_able :
    (by_name : Dict Node) (kind key : Text) (names : List Text) (found : Option Text)
    → first_able by_name kind (sort_texts names) ≡ found
    → RunsOn by_name names kind key (elim found [ none ↦ [] | some name ↦ (key, name) ∷ [] ])
RunsOn-first_able by_name kind key names none e =
    inl
      (refl, λ n m. first_able-none by_name kind (sort_texts names) n e (contains-sort names n ∙ m))
RunsOn-first_able by_name kind key names (some name) e =
    let (m, able, least) =
      first_able-some by_name kind (sort_texts names) name (sort_texts-IsSorted names) e in
    inr (
      name,
      refl,
      sym (contains-sort names name) ∙ m,
      able,
      λ n i. least n (contains-sort names n ∙ i),
    )

-- The release task of a snapshot runs on exactly one node: of the named target nodes that can run
-- its kind, the one of the least name; on none if none can run it.
pub release_nodes_for_publication-RunsOn :
    (release : Release) (targets : List Node) (task : TaskJson)
    → release.snapshot.release_task ≡ some task
    → RunsOn
        (nodes_by_name [] targets)
        (node_names targets)
        release.snapshot.release_service_kind
        (release_snapshot_key release.snapshot)
        (release_nodes_for_publication release targets)
unfolding release_nodes_for_publication
release_nodes_for_publication-RunsOn release targets task h =
    rw (h, release_nodes_for_publication)
      (RunsOn-first_able (nodes_by_name [] targets) release.snapshot.release_service_kind
        (release_snapshot_key release.snapshot) (node_names targets) _ refl)
