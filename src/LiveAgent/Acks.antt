-- ===== src/LiveAgent/Acks.antt =====
-- In which order message data is passed on.
use shim_service.Base.{
  ℕ, zero, suc, ◌+◌, ◌≤◌, ◌≡◌, refl, ap, true, Option, none, some, List, [], ◌∷◌, ◌++◌, arith,
  length, Bool-cases, Option-cases, inl, inr, subst, eqb_iff,
}
use mathlib.Core.List.{Perm}
use mathlib.Core.List.Perm
use shim_service.LiveAgent.{
  MessageData, LiveAgentPollerSettings, matches_ack, take_first_match, take_matches,
  add_message_data,
}

-- Data that follows on `next`, each piece on the one before, up to `last`.
pub InOrder : ℕ → List MessageData → ℕ → Type 0
InOrder next [] last = next ≡ last
InOrder next (d ∷ ds) last =
    (next + length d.messages ≡ d.sequence + 1) × InOrder (d.sequence + 1) ds last

-- A piece that is found is one that matches, and the others are left.
abbrev Found : ℕ → List MessageData → Option (MessageData × List MessageData) → Type 0
Found next ds none = Unit
Found next ds (some (d, rest)) =
    (next + length d.messages ≡ d.sequence + 1)
    × (length ds ≡ suc (length rest))
    × Perm (d ∷ rest) ds

matched :
    (next : ℕ) (d : MessageData)
    → matches_ack next d ≡ true
    → next + length d.messages ≡ d.sequence + 1
unfolding matches_ack
matched next d h = (eqb_iff (next + length d.messages) (d.sequence + 1)).0 h

take_first_match-Found :
    (next : ℕ) (ds : List MessageData) → Found next ds (take_first_match next ds)
unfolding take_first_match
take_first_match-Found next [] = tt
take_first_match-Found next (d ∷ ds) = elim (Bool-cases (matches_ack next d)) [
  | inl yes_ ↦ rw yes_ (matched next d yes_, refl, Perm.refl (d ∷ ds))
  | inr not_ ↦ rw not_ (elim (Option-cases (take_first_match next ds)) [
    | inl e ↦ rw e tt
    | inr (found, e) ↦
        let (m, l, p) = subst (Found next ds) e (take_first_match-Found next ds) in
        rw e (m, ap suc l, Perm.trans (Perm.swap d found.0 found.1) (Perm.cons d p))
  ])
]

nothing : (next : ℕ) (ds : List MessageData) → length ds ≤ 0 → take_first_match next ds ≡ none
unfolding take_first_match
nothing next [] h = refl
nothing next (d ∷ ds) h = absurd (omega (arith, h))

abbrev pub Taken : ℕ → List MessageData × LiveAgentPollerSettings → Type 0
Taken next (results, s') =
    InOrder next results s'.next × (take_first_match s'.next s'.message_list ≡ none)

-- What the loop takes follows on what was acknowledged, piece by piece, and with fuel for the whole
-- list it stops only where no piece of the list follows.
take_matches-InOrder :
    (fuel : ℕ) (s : LiveAgentPollerSettings)
    → length s.message_list ≤ fuel
    → let (results, s') = take_matches fuel s in
      Taken s.next (results, s') × Perm (results ++ s'.message_list) s.message_list
unfolding take_matches InOrder
take_matches-InOrder zero s h = ((refl, nothing s.next s.message_list h), Perm.refl s.message_list)
take_matches-InOrder (suc fuel) s h = elim (Option-cases (take_first_match s.next s.message_list)) [
  | inl e ↦ rw (e, take_matches) ((refl, e), Perm.refl s.message_list)
  | inr (found, e) ↦
      let (m, l, p) =
        subst (Found s.next s.message_list) e (take_first_match-Found s.next s.message_list) in
      let s' : LiveAgentPollerSettings = record {
        next = found.0.sequence + 1;
        message_list = found.1;
      } in
      let ((ordered, stopped), rest) = take_matches-InOrder fuel s' (omega (arith, h, l)) in
      rw (e, take_matches) (((m, ordered), stopped), Perm.trans (Perm.cons found.0 rest) p)
]

-- Message data that follows on what was acknowledged is passed on first, then pieces that come from
-- the list, each of which follows on the one before, until no piece that is left in the list does.
-- What is passed on from the list and what is left in it is, but for the order, what was in it.
pub add_message_data-InOrder :
    (d : MessageData) (s : LiveAgentPollerSettings)
    → matches_ack s.next d ≡ true
    → let (results, s') = add_message_data d s in
      Taken s.next (results, s')
      × ((taken : List MessageData) × (results ≡ d ∷ taken)
          × Perm (taken ++ s'.message_list) s.message_list)
unfolding add_message_data InOrder matches_ack
add_message_data-InOrder d s h =
    let start : LiveAgentPollerSettings = record s { next = d.sequence + 1 } in
    let run = take_matches (length s.message_list) start in
    let ((ordered, stopped), rest) =
      take_matches-InOrder (length s.message_list) start (omega arith) in
    rw h (
      (((eqb_iff (s.next + length d.messages) (d.sequence + 1)).0 h, ordered), stopped),
      (run.0, refl, rest),
    )

-- Message data one after the other, and all that is passed on.
unfoldable pub add_all :
    List MessageData → LiveAgentPollerSettings → List MessageData × LiveAgentPollerSettings
add_all [] s = ([], s)
add_all (d ∷ ds) s =
    let (results, s') = add_message_data d s in
    let (more, s'') = add_all ds s' in (results ++ more, s'')

alone :
    (d : MessageData) (s : LiveAgentPollerSettings)
    → s.message_list ≡ []
    → ((add_message_data d s).0 ≡ d ∷ []) × ((add_message_data d s).1.message_list ≡ [])
unfolding add_message_data take_matches
alone d s h = elim (Bool-cases (matches_ack s.next d)) [
  | inl yes_ ↦ rw (yes_, h) (refl, refl)
  | inr not_ ↦ rw not_ (refl, h)
]

-- Settings with nothing in their list never put anything there: data that does not follow on what
-- was acknowledged is passed on at once, and so all data is passed on as it comes.
pub add_all-arrival_order :
    (ds : List MessageData) (s : LiveAgentPollerSettings)
    → s.message_list ≡ []
    → ((add_all ds s).0 ≡ ds) × ((add_all ds s).1.message_list ≡ [])
unfolding add_all
add_all-arrival_order [] s h = (refl, h)
add_all-arrival_order (d ∷ ds) s h =
    let (one, none_left) = alone d s h in
    let (same, still) = add_all-arrival_order ds (add_message_data d s).1 none_left in
    (rw (one, same) refl, still)
