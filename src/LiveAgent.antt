-- ===== src/LiveAgent.antt =====
-- python/shim-service/src/services/sfdc/live_agent: the messages of an agent, in the order of their
-- acknowledgements (message_data.py and the poller settings of __init__.py), and what is passed on
-- of them (message_dispatcher.py).
pub mod Acks
pub mod Dispatches
pub mod Presence
use shim_service.Base.{
  ℕ, zero, suc, ◌+◌, String, Bool, true, false, ◌&&◌, Option, none, some, List, [], ◌∷◌, ◌++◌, eqb,
  if◌then◌else◌, Eq, ◌==◌, string_eq, pair_eq, option_eq, nat_eq, contains, length,
}

-- A message: its type, its text, and the record that it was made of, if any, by its JSON text.
abbrev pub Message : Type 0
Message = String × (String × Option String)

abbrev pub shutdown_type : String
shutdown_type = "LiveAgentKitShutdown"

pub record MessageData : Type 0 where
  pub messages : List Message
  pub sequence : ℕ
  pub offset : Option ℕ

unfoldable pub is_shutdown_message : MessageData → Bool
is_shutdown_message d = elim d.messages [
  | [] ↦ false
  | m ∷ [] ↦ m.0 == shutdown_type
  | m ∷ n ∷ ms ↦ false
]

-- Acknowledgements start at -1, so they are kept one higher here: `next` is `ack + 1`.
unfoldable pub matches_ack : ℕ → MessageData → Bool
matches_ack next d = eqb (next + length d.messages) (d.sequence + 1)

pub record LiveAgentPollerSettings : Type 0 where
  pub next : ℕ
  pub message_list : List MessageData

unfoldable pub new_settings : LiveAgentPollerSettings
new_settings = record { next = 0; message_list = [] }

-- `find_first_match` and the `remove` of what it found: that one and the list without it.
unfoldable pub take_first_match : ℕ → List MessageData → Option (MessageData × List MessageData)
take_first_match next [] = none
take_first_match next (d ∷ ds) =
    let rest = take_first_match next ds in
    if matches_ack next d
    then some (d, ds)
    else elim rest [ none ↦ none | some found ↦ some (found.0, d ∷ found.1) ]

-- The loop of `add_message_data`; every turn shortens the list, so its length is fuel enough.
unfoldable pub take_matches :
    ℕ → LiveAgentPollerSettings → List MessageData × LiveAgentPollerSettings
take_matches zero s = ([], s)
take_matches (suc fuel) s = elim (take_first_match s.next s.message_list) [
  | none ↦ ([], s)
  | some found ↦
      let (results, s') =
        take_matches fuel (record { next = found.0.sequence + 1; message_list = found.1 }) in
      (found.0 ∷ results, s')
]

unfoldable pub add_message_data :
    MessageData → LiveAgentPollerSettings → List MessageData × LiveAgentPollerSettings
unfolding take_matches
add_message_data d s =
    let (results, s') = take_matches (length s.message_list) (record s { next = d.sequence + 1 }) in
    if matches_ack s.next d then (d ∷ results, s') else (d ∷ [], s)

-- The types that are pushed to the devices.
unfoldable pub supported_types : List String
supported_types =
    "Agent/LoginResult" ∷ "Presence/PresenceStatusChanged" ∷ "Presence/WorkAssigned"
    ∷ "Presence/WorkAccepted" ∷ "Conversational/ConversationMessage" ∷ "LmAgent/ChatRequest"
    ∷ "LmAgent/ChatEstablished" ∷ "AsyncResult" ∷ "Presence/AfterConversationWorkStarted"
    ∷ "LiveAgentKitShutdown" ∷ []

-- `examine_message` for a context of a live agent, whose channel it always finds: what it submits, if
-- anything.
unfoldable pub examine_message : Message → List Message
examine_message m = if contains supported_types m.0 then m ∷ [] else []

-- `dispatch_message_data`: what it submits, `message_set` being the messages seen before.
unfoldable pub dispatch : List Message → List Message → List Message
dispatch message_set [] = []
dispatch message_set (m ∷ ms) =
    let rest = dispatch (m ∷ message_set) ms in
    let same = dispatch message_set ms in
    if contains message_set m then same else examine_message m ++ rest

unfoldable pub dispatch_message_data : MessageData → List Message
unfolding dispatch
dispatch_message_data d = dispatch [] d.messages
