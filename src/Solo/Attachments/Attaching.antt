-- ===== src/Solo/Attachments/Attaching.antt =====
-- cli/internal/solo/state.go: the attachments as a relation between keys and node names, which
-- AttachNode and DetachNode add to and take from.
use devopsellence.Base.{
  Bool, true, false, not, ◌&&◌, ◌||◌, ◌≡◌, refl, sym, ◌∙◌, ap, subst, Option, none, some, List, [],
  ◌∷◌, ◌++◌, map, keep, Text, ◌==◌, trim, is_empty, contains, contains-distinct, contains-keep,
  contains-append, Dict, lookup, insert, lookup-insert, remove, lookup-remove, has_key, or_value,
  Result, ok, err, ◌>>=◌, bind-ok, reject_if-ok, arith, Bool-cases, inl, inr, if◌then◌else◌,
}
use devopsellence.Base.TextLaws.{eq_iff, eq_refl, eq_sound, trim_idem}
use devopsellence.Base.SortLaws.{contains-sort}
use devopsellence.Plan.Schedule.{trimmed_distinct}
use devopsellence.Solo.Types.{AttachmentRecord, State, StateError, node_unknown, empty_attachment}
use devopsellence.Solo.Keys.{Paths, environment_state_key}
use devopsellence.Solo.Attachments.{
  normalize_node_names, attachment, attached_record, attach_found, attach_node, detached_record,
  detach_found, detach_node, names_of,
}

contains-normalize_node_names :
    (names : List Text) (n : Text)
    → contains (normalize_node_names names) n ≡ (contains (map trim names) n && not (is_empty n))
unfolding normalize_node_names contains
contains-normalize_node_names names n =
    contains-sort (trimmed_distinct names) n
    ∙ (contains-distinct [] _ n
        ∙ ground
            (arith, contains-keep (λ x. if is_empty x then false else true) (map trim names) n))

trimmed_member : (names : List Text) (n : Text) → contains (map trim names) n ≡ true → trim n ≡ n
unfolding contains
trimmed_member [] n c = absurd (ground arith)
trimmed_member (x ∷ xs) n c = elim (Bool-cases (trim x == n)) [
  | inl e ↦ subst (λ t. trim t ≡ t) (eq_sound (trim x) n e) (trim_idem x)
  | inr e ↦ trimmed_member xs n (ground arith)
]

trimmed_map :
    (names : List Text)
    → ((n : Text) → contains names n ≡ true → trim n ≡ n)
    → map trim names ≡ names
unfolding contains
trimmed_map [] t = refl
trimmed_map (x ∷ xs) t =
    ap (λ h. h ∷ map trim xs) (t x (ground (arith, eq_refl x)))
    ∙ ap (λ l. x ∷ l) (trimmed_map xs (λ n c. t n (ground (arith, c))))

-- The members that a list of names stands for.
abbrev pub has_name : List Text → Text → Bool
has_name names n = contains (map trim names) n && not (is_empty n)

has_name-normalized :
    (names : List Text) (n : Text) → has_name (normalize_node_names names) n ≡ has_name names n
has_name-normalized names n =
    let trimmed =
      trimmed_map (normalize_node_names names) (λ m c.
        trimmed_member names m (ground (arith, contains-normalize_node_names names m, c))) in
    ap (λ l. contains l n && not (is_empty n)) trimmed
    ∙ ground (arith, contains-normalize_node_names names n)

map_append : (xs ys : List Text) → map trim (xs ++ ys) ≡ map trim xs ++ map trim ys
map_append [] ys = refl
map_append (x ∷ xs) ys = ap (λ l. trim x ∷ l) (map_append xs ys)

has_name-append :
    (names : List Text) (node n : Text)
    → has_name (names ++ trim node ∷ []) n
      ≡ (has_name names n || (trim node == n && not (is_empty n)))
unfolding contains
has_name-append names node n =
    ap (λ l. contains l n && not (is_empty n)) (map_append names (trim node ∷ []))
    ∙ ground (arith, contains-append (map trim names) (trim (trim node) ∷ []) n, trim_idem node)

has_name-keep :
    (names : List Text) (node n : Text)
    → has_name (keep (λ current. not (trim current == trim node)) names) n
      ≡ (has_name names n && not (trim node == n))
unfolding contains
has_name-keep [] node n = refl
has_name-keep (x ∷ xs) node n = ground (
  arith,
  has_name-keep xs node n,
  eq_iff (trim x) n,
  eq_iff (trim x) (trim node),
  eq_iff (trim node) n,
)

-- The node is attached under the key.
abbrev pub is_attached : State → (key node : Text) → Bool
is_attached state key n = has_name (names_of (lookup key state.attachments)) n

pub data Operation : Type 0 where
  attach detach : (root environment node : Text) → Operation

module _ (paths : Paths) where
  -- The state after an operation.
  unfoldable pub run : Operation → State → Result StateError State
  run (attach root environment node) state =
      attach_node paths root environment node state >>= λ out. ok out.2
  run (detach root environment node) state =
      detach_node paths root environment node state >>= λ out. ok out.2

  unfoldable pub key_of : Operation → Result StateError Text
  key_of (attach root environment node) = environment_state_key paths root environment
  key_of (detach root environment node) = environment_state_key paths root environment

-- What an operation under a key does to the relation.
abbrev pub apply : (key : Text) → Operation → (Text → Text → Bool) → Text → Text → Bool
apply key (attach root environment node) related k n =
    related k n || (key == k && (trim node == n && not (is_empty n)))
apply key (detach root environment node) related k n =
    related k n && not (key == k && trim node == n)

ok-value {ℓ} : {A : Type ℓ} {a b : A} → ◌≡◌ {A = Result StateError A} (ok a) (ok b) → a ≡ b
ok-value {a = a} h = ap (λ r. elim r [ ok x ↦ x | err e ↦ a ]) h

named-insert :
    (key k n : Text) (new : AttachmentRecord) (records : Dict AttachmentRecord)
    → has_name (names_of (lookup k (insert key new records))) n
      ≡ (if key == k then has_name new.node_names n else has_name (names_of (lookup k records)) n)
named-insert key k n new records =
    ap (λ o. has_name (names_of o) n) (lookup-insert key k new records) ∙ branch (key == k)
  where
    branch :
        (b : Bool)
        → has_name (names_of (if b then some new else lookup k records)) n
          ≡ (if b then has_name new.node_names n else has_name (names_of (lookup k records)) n)
    branch true = refl
    branch false = refl

named-remove :
    (key k n : Text) (records : Dict AttachmentRecord)
    → has_name (names_of (lookup k (remove key records))) n
      ≡ (if key == k then false else has_name (names_of (lookup k records)) n)
unfolding contains
named-remove key k n records =
    ap (λ o. has_name (names_of o) n) (lookup-remove key k records) ∙ branch (key == k)
  where
    branch :
        (b : Bool)
        → has_name (names_of (if b then none else lookup k records)) n
          ≡ (if b then false else has_name (names_of (lookup k records)) n)
    branch true = refl
    branch false = refl

named-found :
    (found : Option AttachmentRecord) (n : Text)
    → has_name (or_value empty_attachment found).node_names n ≡ has_name (names_of found) n
named-found none n = refl
named-found (some r) n = refl

-- The names under a key are those of what is found there.
found-named :
    (key k n : Text) (state : State) (found : Option AttachmentRecord)
    → lookup key state.attachments ≡ found
    → (key == k) ≡ true
    → has_name (names_of found) n ≡ is_attached state k n
found-named key k n state found e same =
    ap (λ o. has_name (names_of o) n) (sym e)
    ∙ ap (λ j. has_name (names_of (lookup j state.attachments)) n) (eq_sound key k same)

no_names : (names : List Text) (n : Text) → is_empty names ≡ true → has_name names n ≡ false
unfolding contains
no_names [] n e = refl
no_names (x ∷ xs) n e = absurd (ground arith)

module _ (paths : Paths) where
  attached-related :
      (root environment node key : Text) (found : Option AttachmentRecord) (state : State)
      (k n : Text)
      → lookup key state.attachments ≡ found
      → is_attached (attach_found root environment (trim node) key found state).2 k n
        ≡ apply key (attach root environment node) (is_attached state) k n
  unfolding attach_found attached_record
  attached-related root environment node key found state k n e =
      let old = or_value empty_attachment found in
      let names = old.node_names ++ trim node ∷ [] in
      named-insert key k n (attached_record root environment (trim node) key old) state.attachments
      ∙ ground (
        arith,
        has_name-normalized names n,
        has_name-append old.node_names node n,
        named-found found n,
        found-named key k n state found e,
      )

  detached-related :
      (root environment node key : Text) (found : Option AttachmentRecord) (state : State)
      (k n : Text)
      → lookup key state.attachments ≡ found
      → is_attached (detach_found node key found state).2 k n
        ≡ apply key (detach root environment node) (is_attached state) k n
  unfolding detach_found detached_record contains
  detached-related root environment node key none state k n e =
      ground (arith, found-named key k n state none e)
  detached-related root environment node key (some old) state k n e =
      let rest = keep (λ current. not (trim current == trim node)) old.node_names in
      let after = has_name-normalized rest n ∙ has_name-keep old.node_names node n in
      elim (Bool-cases (is_empty (normalize_node_names rest))) [
        | inl gone ↦ rw gone (
            named-remove key k n state.attachments
            ∙ ground (
              arith,
              after,
              no_names (normalize_node_names rest) n gone,
              found-named key k n state (some old) e,
            ))
        | inr kept ↦ rw kept (
            named-insert key k n (detached_record node old) state.attachments
            ∙ ground (arith, after, found-named key k n state (some old) e))
      ]

  attachment-found :
      (state : State) (root environment key : Text)
      → environment_state_key paths root environment ≡ ok key
      → attachment paths state root environment ≡ ok (key, lookup key state.attachments)
  unfolding attachment
  attachment-found state root environment key e = rw e refl

  run-related :
      (op : Operation) (key : Text) (state state' : State) (k n : Text)
      → key_of paths op ≡ ok key
      → run paths op state ≡ ok state'
      → is_attached state' k n ≡ apply key op (is_attached state) k n
  unfolding run key_of attach_node detach_node
  run-related (attach root environment node) key state state' k n e h =
      let (out, (r, s)) = bind-ok (attach_node paths root environment node state) _ state' h in
      let known =
        reject_if-ok (not (has_key (trim node) state.nodes)) (node_unknown (trim node)) _ out r in
      let done = rw (attachment-found state root environment key e) at known.1 in
      sym (ap (λ t. is_attached t k n) (ap (λ o. o.2) (ok-value done) ∙ ok-value s))
      ∙ attached-related root environment node key (lookup key state.attachments) state k n refl
  run-related (detach root environment node) key state state' k n e h =
      let (out, (r, s)) = bind-ok (detach_node paths root environment node state) _ state' h in
      let done = rw (attachment-found state root environment key e) at r in
      sym (ap (λ t. is_attached t k n) (ap (λ o. o.2) (ok-value done) ∙ ok-value s))
      ∙ detached-related root environment node key (lookup key state.attachments) state k n refl

  -- A history of operations, each with its key, from one state to another.
  pub data Steps : State → List (Text × Operation) → State → Type 0 where
    done : {state : State} → Steps state [] state
    step :
        {state middle last : State} {key : Text} {op : Operation} {later : List (Text × Operation)}
        → key_of paths op ≡ ok key
        → run paths op state ≡ ok middle
        → Steps middle later last
        → Steps state ((key, op) ∷ later) last

apply-ext :
    (key : Text) (op : Operation) (r r' : Text → Text → Bool) (k n : Text)
    → r k n ≡ r' k n
    → apply key op r k n ≡ apply key op r' k n
apply-ext key (attach root environment node) r r' k n e =
    ap (λ b. b || (key == k && (trim node == n && not (is_empty n)))) e
apply-ext key (detach root environment node) r r' k n e =
    ap (λ b. b && not (key == k && trim node == n)) e

abbrev pub apply_all : List (Text × Operation) → (Text → Text → Bool) → Text → Text → Bool
apply_all [] related = related
apply_all ((key, op) ∷ later) related = apply_all later (apply key op related)

apply_all-ext :
    (ops : List (Text × Operation)) (r r' : Text → Text → Bool) (k n : Text)
    → r k n ≡ r' k n
    → apply_all ops r k n ≡ apply_all ops r' k n
apply_all-ext [] r r' k n e = e
apply_all-ext ((key, op) ∷ later) r r' k n e =
    apply_all-ext later (apply key op r) (apply key op r') k n (apply-ext key op r r' k n e)

-- After any history of attaching and detaching nodes that did not fail, a node is attached under a
-- key exactly if the same history of additions and removals leads there on the plain relation
-- between keys and node names: attaching adds one pair, detaching takes one, and neither the order
-- nor the repetition of names in the records, nor a record that was dropped, makes a difference.
pub Steps-apply_all :
    (paths : Paths) (state state' : State) (ops : List (Text × Operation)) (k n : Text)
    → Steps paths state ops state'
    → is_attached state' k n ≡ apply_all ops (is_attached state) k n
Steps-apply_all paths state state' [] k n done = refl
Steps-apply_all paths state state' ((key, op) ∷ later) k n (step {middle = m} e r rest) =
    Steps-apply_all paths m state' later k n rest
    ∙ apply_all-ext later (is_attached m) (apply key op (is_attached state)) k n
        (run-related paths op key state m k n e r)
