-- ===== src/Repos/Store/Writes.antt =====
-- A write of the store where nothing is in its way: the number of its event is not taken, and no
-- listener adds a request.
use shim_service.Base.{
  ℕ, ◌+◌, ◌≤◌, ◌≡◌, refl, ap, ◌∙◌, String, Bool, true, false, none, some, List, [], ◌∷◌, ◌++◌,
  arith, Bool-cases, inl, inr, if◌then◌else◌, ◌==◌, nat_eq, string_eq, pair_eq, All, beq_refl,
  All-imp, ◌<◌,
}
use shim_service.Base.Dict.{Dict}
use shim_service.Events
use shim_service.Events.{Event, EventType}
use shim_service.Repos.Sequence.Numbers.{Shows}
use shim_service.Repos.Database.{
  ItemKey, Request, item_key, holds_on, effect, Rows, all_hold, applied, committed, Database,
  rows_of, IsLawful,
}
use shim_service.Repos.Store.{
  Datum, Surroundings, event_item, new_event, put_event, event_requests, execute_with_event,
}
use shim_service.Repos.Store.Transactions.{first_failing, verdict, execute_with_event_lem}

module _ (rows : Rows) (q : Request) (good : holds_on q (rows (item_key q)) ≡ true) where
  all_hold-append : (rs : List Request) → all_hold rows (rs ++ q ∷ []) ≡ all_hold rows rs
  all_hold-append [] = rw good refl
  all_hold-append (r ∷ rs) = rw (all_hold-append rs) refl

  first_failing-append :
      (rs : List Request) (n : ℕ)
      → all_hold rows rs ≡ false
      → first_failing rows (rs ++ q ∷ []) n ≡ first_failing rows rs n
  first_failing-append [] n h = cc
  first_failing-append (r ∷ rs) n h = elim (Bool-cases (holds_on r (rows (item_key r)))) [
    | inl fine ↦ rw fine (first_failing-append rs (n + 1) (ground (arith, fine, h)))
    | inr bad ↦ rw bad refl
  ]

  verdict-append : (rs : List Request) → verdict rows (rs ++ q ∷ []) ≡ verdict rows rs
  verdict-append rs = elim (Bool-cases (all_hold rows rs)) [
    | inl fine ↦ rw (all_hold-append rs, fine) refl
    | inr bad ↦ rw (all_hold-append rs, bad, first_failing-append rs 0 bad) refl
  ]

  applied-append_ne :
      (rs : List Request) (k : ItemKey)
      → (k == item_key q) ≡ false
      → applied (rs ++ q ∷ []) rows k ≡ applied rs rows k
  applied-append_ne [] k h = rw h refl
  applied-append_ne (r ∷ rs) k h = rw (applied-append_ne rs k h) refl

  applied-append_self :
      (rs : List Request)
      → All (λ r. (item_key q == item_key r) ≡ false) rs
      → applied (rs ++ q ∷ []) rows (item_key q) ≡ effect q (rows (item_key q))
  applied-append_self [] h = rw (beq_refl ⦃e = pair_eq⦄ (item_key q)) refl
  applied-append_self (r ∷ rs) h = rw (h.0, applied-append_self rs h.1) refl

  committed-append_ne :
      (rs : List Request) (k : ItemKey)
      → (k == item_key q) ≡ false
      → committed rows (rs ++ q ∷ []) k ≡ committed rows rs k
  unfolding committed
  committed-append_ne rs k h = rw (all_hold-append rs, applied-append_ne rs k h) refl

  committed-append_self :
      (rs : List Request)
      → All (λ r. (item_key q == item_key r) ≡ false) rs
      → committed rows (rs ++ q ∷ []) (item_key q)
        ≡ (if all_hold rows rs then effect q (rows (item_key q)) else rows (item_key q))
  unfolding committed
  committed-append_self rs h = rw (all_hold-append rs, applied-append_self rs h) refl

pub if_same {ℓ} : {A : Type ℓ} (b : Bool) (x : A) → (if b then x else x) ≡ x
if_same true x = refl
if_same false x = refl

-- An item that no request is for.
applied_other :
    (rows : Rows) (rs : List Request) (k : ItemKey)
    → All (λ r. (k == item_key r) ≡ false) rs
    → applied rs rows k ≡ rows k
applied_other rows [] k h = refl
applied_other rows (r ∷ rs) k h = rw (h.0, applied_other rows rs k h.1) refl

pub committed_other :
    (rows : Rows) (rs : List Request) (k : ItemKey)
    → All (λ r. (k == item_key r) ≡ false) rs
    → committed rows rs k ≡ rows k
unfolding committed
committed_other rows rs k h = rw (applied_other rows rs k h) (if_same (all_hold rows rs) (rows k))

-- Items that differ in some part of their keys.
pub item_ne : (j k : ItemKey) → (j ≡ k → ⊥) → (j == k) ≡ false
item_ne j k h = elim (Bool-cases (j == k)) [
  | inl same ↦ absurd (h ((pair_eq.beq_iff j k).0 same))
  | inr other ↦ other
]

other_event :
    (tenant_id n v : ℕ) → v < n → (event_item tenant_id n == event_item tenant_id v) ≡ false
other_event tenant_id n v less =
    item_ne (event_item tenant_id n) (event_item tenant_id v)
      (λ same. omega (arith, ap (λ (k : ItemKey). k.1.1) same))

module _ (db : Database) where
  -- The tenant's sequence of events is unlocked and shows `v`, and no event has `v` or more.
  pub record Ready (tenant_id v : ℕ) (s : db.sequences.State) : Type 0 where
    pub shows : Shows db.sequences (tenant_id, "EventSeq") s v 0
    pub fresh : (n : ℕ) → v ≤ n → db.get_item s (event_item tenant_id n) ≡ none

  module _ (env : Surroundings) where
    abbrev pub IsQuiet : Type 0
    IsQuiet = (e : Event) → env.examine_event e ≡ []

    event_requests-quiet :
        (tenant_id : ℕ) (rs : List Request) (kind : EventType) (info : Dict String Datum) (v : ℕ)
        → IsQuiet
        → event_requests db env tenant_id rs kind info v
          ≡ rs ++ put_event db env (new_event db env tenant_id v kind info) ∷ []
    unfolding event_requests
    event_requests-quiet tenant_id rs kind info v quiet = rw (quiet _) refl

    -- The requests are not for events.
    abbrev pub NoEvents : ℕ → List Request → Type 0
    NoEvents tenant_id = All (λ r. (n : ℕ) → (event_item tenant_id n == item_key r) ≡ false)

    -- The answer and the rows after it, those of events apart, are as if the requests were alone; the
    -- event is there exactly if they were done, and the store is ready for the next write.
    pub write_lem :
        (tenant_id : ℕ) (rs : List Request) (kind : EventType) (info : Dict String Datum) (v : ℕ)
        (s : db.sequences.State)
        → IsLawful db
        → IsQuiet
        → NoEvents tenant_id rs
        → Ready tenant_id v s
        → let (reply, s') = execute_with_event db env tenant_id rs kind info s in
          (reply ≡ verdict (rows_of db s) rs)
          × ((k : ItemKey)
              → ((n : ℕ) → (k == event_item tenant_id n) ≡ false)
              → rows_of db s' k ≡ committed (rows_of db s) rs k)
          × (rows_of db s' (event_item tenant_id v) ≡ (
              if all_hold (rows_of db s) rs
              then some (Events.to_record (new_event db env tenant_id v kind info))
              else none))
          × Ready tenant_id (v + 1) s'
    unfolding holds_on effect
    write_lem tenant_id rs kind info v s L quiet no_events ready =
        let old = rows_of db s in
        let e = new_event db env tenant_id v kind info in
        let q = put_event db env e in
        let good : holds_on q (old (item_key q)) ≡ true = rw (ready.fresh v (omega arith)) refl in
        let done = execute_with_event_lem db env L tenant_id rs kind info v s ready.shows in
        let same = event_requests-quiet tenant_id rs kind info v quiet in
        let after = done.1 ∙ ap (committed old) same in
        let others = λ (n : ℕ). All-imp rs (λ r far. far n) no_events in
        (
          done.0 ∙ ap (verdict old) same ∙ verdict-append old q good rs,
          (λ k far.
              ap (λ (rows : Rows). rows k) after ∙ committed-append_ne old q good rs k (far v)),
          ap (λ (rows : Rows). rows (event_item tenant_id v)) after
              ∙ committed-append_self old q good rs (others v)
              ∙ event_put (ready.fresh v (omega arith)),
          record {
            shows = done.2;
            fresh = λ n later.
                ap (λ (rows : Rows). rows (event_item tenant_id n)) after
                ∙ committed-append_ne old q good rs (event_item tenant_id n)
                    (other_event tenant_id n v (omega (arith, later)))
                ∙ committed_other old rs (event_item tenant_id n) (others n)
                ∙ ready.fresh n (omega (arith, later));
          },
        )
      where
        event_put :
            rows_of db s (event_item tenant_id v) ≡ none
            → (if all_hold (rows_of db s) rs
                then some (Events.to_record (new_event db env tenant_id v kind info))
                else rows_of db s (event_item tenant_id v))
              ≡ (if all_hold (rows_of db s) rs
                  then some (Events.to_record (new_event db env tenant_id v kind info))
                  else none)
        event_put h = rw h refl
