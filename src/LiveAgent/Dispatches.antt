-- ===== src/LiveAgent/Dispatches.antt =====
-- Which messages are pushed to a device.
use shim_service.Base.{
  ◌≡◌, refl, ap, ◌∙◌, false, ◌&&◌, ◌||◌, not, List, [], ◌∷◌, ◌++◌, Eq, ◌==◌, string_eq, pair_eq,
  option_eq, contains, arith, Bool-cases, inl, inr, beq_refl,
}
use shim_service.LiveAgent.{
  Message, MessageData, supported_types, examine_message, dispatch, dispatch_message_data,
}

abbrev message_eq : Eq Message
message_eq = pair_eq

-- No message twice.
abbrev pub Nodup : List Message → Type 0
Nodup [] = Unit
Nodup (m ∷ ms) = (contains ms m ≡ false) × Nodup ms

contains-examine :
    (m : Message) (ms : List Message) (x : Message)
    → contains (examine_message m ++ ms) x
      ≡ ((contains supported_types m.0 && (x == m)) || contains ms x)
unfolding examine_message
contains-examine m ms x = elim (Bool-cases (contains supported_types m.0)) [
  | inl supported ↦
      rw supported
        (elim (Bool-cases (x == m)) [ inl same ↦ rw same refl | inr differs ↦ rw differs refl ])
  | inr other ↦ rw other refl
]

dispatch_lem :
    (seen ms : List Message) (x : Message)
    → contains (dispatch seen ms) x
      ≡ (contains supported_types x.0 && (contains ms x && not (contains seen x)))
unfolding dispatch examine_message
dispatch_lem seen [] x = ground arith
dispatch_lem seen (m ∷ ms) x = elim (Bool-cases (contains seen m)) [
  | inl old ↦ rw old (elim (Bool-cases (x == m)) [
    | inl same ↦
        let e = ap (contains seen) ((message_eq.beq_iff x m).0 same) ∙ old in
        rw (same, dispatch_lem seen ms x, e) (ground arith)
    | inr differs ↦ rw (differs, dispatch_lem seen ms x) refl
  ])
  | inr new ↦ rw new (elim (Bool-cases (x == m)) [
    | inl same ↦
        let e = (message_eq.beq_iff x m).0 same in
        rw
          (
            contains-examine m (dispatch (m ∷ seen) ms) x,
            dispatch_lem (m ∷ seen) ms x,
            same,
            ap (contains seen) e ∙ new,
            ap (λ (y : Message). contains supported_types y.0) e,
          )
          (ground arith)
    | inr differs ↦
        rw (contains-examine m (dispatch (m ∷ seen) ms) x, dispatch_lem (m ∷ seen) ms x, differs)
          (ground arith)
  ])
]

dispatch-Nodup : (seen ms : List Message) → Nodup (dispatch seen ms)
unfolding dispatch examine_message
dispatch-Nodup seen [] = tt
dispatch-Nodup seen (m ∷ ms) = elim (Bool-cases (contains seen m)) [
  | inl old ↦ rw old (dispatch-Nodup seen ms)
  | inr new ↦ rw new (elim (Bool-cases (contains supported_types m.0)) [
    | inl supported ↦ rw supported (
      rw (dispatch_lem (m ∷ seen) ms m, beq_refl ⦃e = message_eq⦄ m) (ground arith),
      dispatch-Nodup (m ∷ seen) ms,
    )
    | inr other ↦ rw other (dispatch-Nodup (m ∷ seen) ms)
  ])
]

-- A message is pushed exactly where it is one of the data's messages and of a supported type, and
-- none is pushed twice.
pub dispatch_message_data_lem :
    (d : MessageData)
    → Nodup (dispatch_message_data d)
      × ((x : Message)
          → contains (dispatch_message_data d) x
            ≡ (contains supported_types x.0 && contains d.messages x))
unfolding dispatch_message_data
dispatch_message_data_lem d =
    (dispatch-Nodup [] d.messages, λ x. dispatch_lem [] d.messages x ∙ ground arith)
