-- ===== src/Stored/Fetch.antt =====
-- agent/internal/authority/solo/authority.go: Fetch, with what os.Stat and the read answer as its
-- arguments. Parameters: crypto/sha256 (`sum256`), and the libraries of ParseOverride.
use devopsellence.Base.{
  Bool, true, false, ◌≡◌, ◌⊎◌, inl, inr, refl, sym, ap, subst, or_value, ℕ, zero, suc, ◌+◌, Option,
  none, some, List, [], ◌∷◌, Text, codes, ◌==◌, nat_eq, leb, ℤ, pos, negsuc, Result, ok, err,
  if◌then◌else◌, Bool-cases, arith,
}
use devopsellence.Base.TextLaws.{eq_iff}
use devopsellence.Config.Store.{FileRead, missing, failed, contents}
use devopsellence.DesiredState.Types.{DesiredState}
use devopsellence.Stored.Cache.{Codec, CacheError}
use devopsellence.Stored.Override.{parse_override}

pub record FetchResult : Type 0 where
  pub desired : DesiredState
  pub sequence : ℤ

-- What Authority keeps of the last desired state that it loaded.
pub record Authority : Type 0 where
  pub digest : Text
  pub desired : Option FetchResult

-- What os.Stat returns: os.ErrNotExist, another error, or the time of the last change in
-- milliseconds.
pub data Stat : Type 0 where
  not_there : Stat
  stat_error : Text → Stat
  changed_at : ℤ → Stat

pub data FetchError : Type 0 where
  no_desired_state : FetchError
  stat_failed read_failed : Text → FetchError
  load_failed : CacheError → FetchError

-- `a <= b`
unfoldable pub is_at_most : ℤ → ℤ → Bool
is_at_most (pos m) (pos n) = leb m n
is_at_most (pos m) (negsuc n) = false
is_at_most (negsuc m) (pos n) = true
is_at_most (negsuc m) (negsuc n) = leb n m

-- The greatest int64.
abbrev pub max_int64 : ℕ
max_int64 = 9223372036854775807

-- `a + 1` on an int64
unfoldable pub next_int64 : ℤ → ℤ
next_int64 (pos n) = if nat_eq n max_int64 then negsuc max_int64 else pos (n + 1)
next_int64 (negsuc zero) = pos 0
next_int64 (negsuc (suc n)) = negsuc n

-- New
abbrev pub new_authority : Authority
new_authority = record { digest = codes ""; desired = none }

unfoldable pub next_sequence : Option FetchResult → (modified : ℤ) → ℤ
unfolding is_at_most next_int64
next_sequence none modified = modified
next_sequence (some held) modified =
    if is_at_most modified held.sequence then next_int64 held.sequence else modified

-- `a.desired`, if its digest is that of the data.
unfoldable pub unchanged : Authority → (digest : Text) → Option FetchResult
unchanged a digest = if digest == a.digest then a.desired else none

abbrev pub Fetched : Type 0
Fetched = Authority × Result FetchError FetchResult

-- `a.desired = nil; return nil, authority.ErrNoDesiredState`
abbrev pub forgotten : Authority → Fetched
forgotten a = (record a { desired = none }, err no_desired_state)

-- What follows ParseOverride.
unfoldable pub fetch_parsed :
    Authority → (digest : Text) → (modified : ℤ) → Result CacheError (Option DesiredState) → Fetched
unfolding next_sequence
fetch_parsed a digest modified (err e) = (a, err (load_failed e))
fetch_parsed a digest modified (ok none) = forgotten (record a { digest = digest })
fetch_parsed a digest modified (ok (some desired)) =
    let result : FetchResult = record {
      desired = desired;
      sequence = next_sequence a.desired modified;
    } in
    (record { digest = digest; desired = some result }, ok result)

-- `return a.desired, nil` if there is one that stands for the data.
unfoldable pub or_fetched : Authority → Option FetchResult → Fetched → Fetched
or_fetched a (some held) parsed = (a, ok held)
or_fetched a none parsed = parsed

-- The result that was held, or one of a greater sequence, unless no int64 is greater.
unfoldable pub IsLater : (held : Option FetchResult) → (result : FetchResult) → Type 0
IsLater none result = Unit {0}
IsLater (some held) result =
    (result ≡ held)
    ⊎ ((is_at_most result.sequence held.sequence ≡ false) ⊎ (held.sequence ≡ pos max_int64))

module _ (codec : Codec) (sum256 : Text → Text) where
  unfoldable pub fetch_read : Authority → (modified : ℤ) → FileRead → Fetched
  unfolding fetch_parsed or_fetched unchanged
  fetch_read a modified missing = forgotten a
  fetch_read a modified (failed e) = (a, err (read_failed e))
  fetch_read a modified (contents data') =
      or_fetched a (unchanged a (sum256 data'))
        (fetch_parsed a (sum256 data') modified (parse_override codec data'))

  unfoldable pub fetch : Authority → Stat → FileRead → Fetched
  unfolding fetch_read
  fetch a not_there file = forgotten a
  fetch a (stat_error e) file = (a, err (stat_failed e))
  fetch a (changed_at modified) file = fetch_read a modified file

  -- The authority after it fetched again and again, with what it met each time.
  unfoldable pub fetch_all : List (Stat × FileRead) → Authority → Authority
  unfolding fetch
  fetch_all [] a = a
  fetch_all ((stat, file) ∷ later) a = fetch_all later (fetch a stat file).0

  -- A text of that digest holds the desired state.
  pub record IsOf (digest : Text) (desired : DesiredState) : Type 0 where
    pub document : Text
    pub same_digest : sum256 document ≡ digest
    pub parsed : parse_override codec document ≡ ok (some desired)

  abbrev pub IsHeld : Authority → Type 0
  IsHeld a = (held : FetchResult) → a.desired ≡ some held → IsOf a.digest held.desired

  -- What an answer has to do with the file and with what was held.
  pub record IsAnswer (a : Authority) (file : FileRead) (result : FetchResult) : Type 0 where
    pub now : Text
    pub read_now : file ≡ contents now
    pub document : IsOf (sum256 now) result.desired
    pub later : IsLater a.desired result

result_of :
    {b : FetchResult} (a : FetchResult)
    → ◌≡◌ {A = Result FetchError FetchResult} (ok a) (ok b)
    → a ≡ b
result_of a h = ap (λ r. elim r [ ok x ↦ x | err e ↦ a ]) h

-- One more than any number but the greatest is greater.
next_int64-greater : (n : ℤ) → (is_at_most (next_int64 n) n ≡ false) ⊎ (n ≡ pos max_int64)
unfolding is_at_most next_int64
next_int64-greater (pos n) = elim (Bool-cases (nat_eq n max_int64)) [
  | inl e ↦ inr (ap pos (ground arith))
  | inr e ↦ inl (rw e (ground arith))
]
next_int64-greater (negsuc zero) = inl refl
next_int64-greater (negsuc (suc n)) = inl (ground arith)

next_sequence-IsLater :
    (held : Option FetchResult) (desired : DesiredState) (modified : ℤ)
    → IsLater held (record { desired = desired; sequence = next_sequence held modified })
unfolding next_sequence IsLater
next_sequence-IsLater none desired modified = tt
next_sequence-IsLater (some held) desired modified =
    elim (Bool-cases (is_at_most modified held.sequence)) [
      | inl e ↦ inr (rw e (next_int64-greater held.sequence))
      | inr e ↦ inr (inl (rw e e))
    ]

module _ (codec : Codec) (sum256 : Text → Text) (a : Authority)
    (start : IsHeld codec sum256 a) where
  abbrev IsFetched : FileRead → Fetched → Type 0
  IsFetched file r =
      IsHeld codec sum256 r.0
      × ((result : FetchResult) → r.1 ≡ ok result → IsAnswer codec sum256 a file result)

  failed-IsFetched : (file : FileRead) (e : FetchError) → IsFetched file (a, err e)
  failed-IsFetched file e = (start, λ result h. absurd (ground arith))

  forgotten-IsFetched : (file : FileRead) (b : Authority) → IsFetched file (forgotten b)
  forgotten-IsFetched file b = (λ held h. absurd (ground arith), λ result h. absurd (ground arith))

  parsed-IsFetched :
      (now : Text) (modified : ℤ) (r : Result CacheError (Option DesiredState))
      → parse_override codec now ≡ r
      → IsFetched (contents now) (fetch_parsed a (sum256 now) modified r)
  unfolding fetch_parsed
  parsed-IsFetched now modified (err e) p = failed-IsFetched (contents now) (load_failed e)
  parsed-IsFetched now modified (ok none) p =
      forgotten-IsFetched (contents now) (record a { digest = sum256 now })
  parsed-IsFetched now modified (ok (some desired)) p =
      let result : FetchResult = record {
        desired = desired;
        sequence = next_sequence a.desired modified;
      } in
      let document : IsOf codec sum256 (sum256 now) desired = record {
        document = now;
        same_digest = refl;
        parsed = p;
      } in
      let answer : IsAnswer codec sum256 a (contents now) result = record {
        now = now;
        read_now = refl;
        document = document;
        later = next_sequence-IsLater a.desired desired modified;
      } in
      (
        λ held h.
            subst (λ r. IsOf codec sum256 (sum256 now) r.desired) (ap (or_value result) h) document,
        λ other h. subst (IsAnswer codec sum256 a (contents now)) (result_of result h) answer,
      )

  unchanged-some :
      (digest : Text) (held : FetchResult)
      → unchanged a digest ≡ some held
      → (digest ≡ a.digest) × (a.desired ≡ some held)
  unfolding unchanged
  unchanged-some digest held h = elim (Bool-cases (digest == a.digest)) [
    | inl e ↦ ((eq_iff digest a.digest).0 e, rw e at h)
    | inr e ↦ absurd (ground arith)
  ]

  kept-IsFetched :
      (now : Text) (modified : ℤ) (o : Option FetchResult)
      → unchanged a (sum256 now) ≡ o
      → IsFetched
          (contents now)
          (or_fetched a o (fetch_parsed a (sum256 now) modified (parse_override codec now)))
  unfolding or_fetched IsLater
  kept-IsFetched now modified none e = parsed-IsFetched now modified _ refl
  kept-IsFetched now modified (some held) e =
      let (same, there) = unchanged-some (sum256 now) held e in
      let answer : IsAnswer codec sum256 a (contents now) held = record {
        now = now;
        read_now = refl;
        document = subst (λ d. IsOf codec sum256 d held.desired) (sym same) (start held there);
        later = rw there (inl refl);
      } in
      (start, λ other h. subst (IsAnswer codec sum256 a (contents now)) (result_of held h) answer)

  read-IsFetched :
      (modified : ℤ) (file : FileRead) → IsFetched file (fetch_read codec sum256 a modified file)
  unfolding fetch_read unchanged or_fetched
  read-IsFetched modified missing = forgotten-IsFetched missing a
  read-IsFetched modified (failed e) = failed-IsFetched (failed e) (read_failed e)
  read-IsFetched modified (contents now) =
      kept-IsFetched now modified (unchanged a (sum256 now)) refl

  fetch-IsFetched :
      (stat : Stat) (file : FileRead) → IsFetched file (fetch codec sum256 a stat file)
  unfolding fetch
  fetch-IsFetched not_there file = forgotten-IsFetched file a
  fetch-IsFetched (stat_error e) file = failed-IsFetched file (stat_failed e)
  fetch-IsFetched (changed_at modified) file = read-IsFetched modified file

module _ (codec : Codec) (sum256 : Text → Text) where
  fetch_all-IsHeld :
      (runs : List (Stat × FileRead)) (a : Authority)
      → IsHeld codec sum256 a
      → IsHeld codec sum256 (fetch_all codec sum256 runs a)
  unfolding fetch_all
  fetch_all-IsHeld [] a h = h
  fetch_all-IsHeld ((stat, file) ∷ later) a h =
      fetch_all-IsHeld later (fetch codec sum256 a stat file).0
        (fetch-IsFetched codec sum256 a h stat file).0

  -- Whatever a new Authority has met in its fetches so far, when Fetch answers with a desired state,
  -- the file was read, and the desired state is what ParseOverride gives for a text that has the
  -- digest of the file's contents. If a result was held before, the answer is that result or has a
  -- greater sequence, unless the held sequence was the greatest int64.
  pub fetch-IsAnswer :
      (runs : List (Stat × FileRead)) (stat : Stat) (file : FileRead) (result : FetchResult)
      → (fetch codec sum256 (fetch_all codec sum256 runs new_authority) stat file).1 ≡ ok result
      → IsAnswer codec sum256 (fetch_all codec sum256 runs new_authority) file result
  fetch-IsAnswer runs stat file result h =
      (fetch-IsFetched codec sum256 (fetch_all codec sum256 runs new_authority)
          (fetch_all-IsHeld runs new_authority (λ held e. absurd (ground arith))) stat file).1
        result h
