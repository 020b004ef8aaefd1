-- ===== src/Server/Answered.antt =====
-- Every command is answered exactly once, in order.
use silta.Common.{
  ℕ, ◌≡◌, refl, ap, ap₂, ◌∙◌, Bool, true, false, Option, none, some, List, [], ◌∷◌, ◌++◌, map,
  String, not, ◌⊎◌, if◌then◌else◌, Bool-cases, inl, inr,
}
use silta.Common.Assoc.{lookup}
use silta.Protocol.Commands.{HistoryMessage, SendFile, CmdKind, CmdResult, ClientMessage, Incoming}
use silta.Transfer.Receiver.{TransferError, Received}
use silta.Server.Connection.{
  Fail, Scan, finish, finish_list, finish_one, finish_scan, finish_done, Shared, Outbound, Files,
  Answers, execute,
}
use silta.Server.Loop.{Input, on_line, on_cmd, send_received, loop, answered, goes_on}

-- the id that a line asks an answer to
abbrev pub asked_by : Incoming → List ℕ
asked_by (Incoming.message (ClientMessage.cmd c)) = c.id ∷ []
asked_by (Incoming.message _) = []
asked_by (Incoming.bad_request id _) = id ∷ []
asked_by (Incoming.ignored _) = []

abbrev pub cut_off : List ℕ → Bool → Bool
cut_off [] sendable = false
cut_off (id ∷ ids) sendable = if sendable then false else true

-- the ids of what comes before the connection ends: by the end of the stream, by a line that is
-- not JSON, or at the first answer that cannot be sent
unfoldable pub asked : List Input → List ℕ
asked [] = []
asked (Input.over ∷ inputs) = []
asked (Input.line none a now sendable ∷ inputs) = []
asked (Input.line (some incoming) a now sendable ∷ inputs) =
    let later = asked inputs in
    if cut_off (asked_by incoming) sendable then [] else asked_by incoming ++ later

abbrev pub result_id : CmdResult → ℕ
result_id result = result.id

id-finish : (id : ℕ) (r : String ⊎ Fail) → (finish id r).id ≡ id
id-finish id (inl event_id) = refl
id-finish id (inr fail) = refl

id-finish_list :
    (id : ℕ) (r : (List HistoryMessage × Option String) ⊎ Fail) → (finish_list id r).id ≡ id
id-finish_list id (inl (messages, more)) = refl
id-finish_list id (inr fail) = refl

id-finish_one : (id : ℕ) (r : HistoryMessage ⊎ Fail) → (finish_one id r).id ≡ id
id-finish_one id (inl message) = refl
id-finish_one id (inr fail) = refl

id-finish_scan : (id : ℕ) (r : Scan ⊎ Fail) → (finish_scan id r).id ≡ id
id-finish_scan id (inl scan) = refl
id-finish_scan id (inr fail) = refl

id-finish_done : (id : ℕ) (r : Option Fail) → (finish_done id r).id ≡ id
id-finish_done id none = refl
id-finish_done id (some fail) = refl

module _ {Channel World : Type 0} (extension : String → Option String)
    (decode : String → Option (List ℕ)) (outbound : Outbound Channel World)
    (complaint : String → Option TransferError → String) where
  send_received-asked :
      (s : Shared Channel World) (f : Files) (session : String) (id : ℕ) (file : SendFile)
      (there : Option Received)
      → map result_id (
          answered extension decode outbound complaint
            (send_received extension decode outbound complaint s f session id file there).2)
        ≡ id ∷ []
  send_received-asked s f session id file none = refl
  send_received-asked s f session id file (some there) =
      ap (λ i. i ∷ []) (id-finish id (outbound.do_send_file s session file there).1)

  on_cmd-asked :
      (s : Shared Channel World) (f : Files) (session : String) (id : ℕ) (kind : CmdKind)
      → map result_id (
          answered extension decode outbound complaint
            (on_cmd extension decode outbound complaint s f session id kind).2)
        ≡ id ∷ []
  unfolding execute
  on_cmd-asked s f session id (CmdKind.reply c) =
      ap (λ i. i ∷ []) (id-finish id (outbound.do_reply s session c).1)
  on_cmd-asked s f session id (CmdKind.react c) =
      ap (λ i. i ∷ []) (id-finish id (outbound.do_react s session c).1)
  on_cmd-asked s f session id (CmdKind.edit c) =
      ap (λ i. i ∷ []) (id-finish id (outbound.do_edit s session c).1)
  on_cmd-asked s f session id (CmdKind.send_file c) =
      send_received-asked s f session id c (lookup c.transfer f.received)
  on_cmd-asked s f session id (CmdKind.fetch_messages c) =
      ap (λ i. i ∷ []) (id-finish_list id (outbound.do_fetch_messages s session c).1)
  on_cmd-asked s f session id (CmdKind.fetch_message c) =
      ap (λ i. i ∷ []) (id-finish_one id (outbound.do_fetch_message s session c).1)
  on_cmd-asked s f session id (CmdKind.search_messages c) =
      ap (λ i. i ∷ []) (id-finish_scan id (outbound.do_search_messages s session c).1)
  on_cmd-asked s f session id (CmdKind.typing c) =
      ap (λ i. i ∷ []) (id-finish_done id (outbound.do_typing s session c).1)

  on_line-asked :
      (s : Shared Channel World) (f : Files) (session : String) (incoming : Incoming) (a : Answers)
      (now : ℕ)
      → map result_id (
          answered extension decode outbound complaint
            (on_line extension decode outbound complaint s f session incoming a now).2)
        ≡ asked_by incoming
  unfolding on_line
  on_line-asked s f session (Incoming.message (ClientMessage.cmd c)) a now =
      on_cmd-asked s f session c.id c.kind
  on_line-asked s f session (Incoming.message (ClientMessage.file head)) a now = refl
  on_line-asked s f session (Incoming.message (ClientMessage.chunk c)) a now = refl
  on_line-asked s f session (Incoming.message (ClientMessage.file_end e)) a now = refl
  on_line-asked s f session (Incoming.message (ClientMessage.ack k)) a now = refl
  on_line-asked s f session (Incoming.message (ClientMessage.hello _)) a now = refl
  on_line-asked s f session (Incoming.bad_request id message) a now = refl
  on_line-asked s f session (Incoming.ignored message) a now = refl

  cut-goes_on :
      (result : Option CmdResult) (ids : List ℕ) (sendable : Bool)
      → map result_id (answered extension decode outbound complaint result) ≡ ids
      → cut_off ids sendable ≡ not (goes_on extension decode outbound complaint result sendable)
  cut-goes_on none [] sendable e = refl
  cut-goes_on none (id ∷ ids) sendable e = cc
  cut-goes_on (some r) [] sendable e = cc
  cut-goes_on (some r) (id ∷ ids) true e = refl
  cut-goes_on (some r) (id ∷ ids) false e = refl

  answered-append :
      (result : Option CmdResult) (later : List CmdResult)
      → map result_id (answered extension decode outbound complaint result ++ later)
        ≡ map result_id (answered extension decode outbound complaint result) ++ map result_id later
  answered-append none later = refl
  answered-append (some r) later = refl

  -- Every command of a connection is answered exactly once and in the order in which they came,
  -- those that are malformed or unsupported too, as long as they carry an id; nothing else is
  -- answered. What comes after the end of the connection, or after the first answer that cannot
  -- be handed to its writer, is not.
  pub loop-asked :
      (s : Shared Channel World) (f : Files) (session : String) (inputs : List Input)
      → map result_id (loop extension decode outbound complaint s f session inputs).2 ≡ asked inputs
  unfolding loop asked
  loop-asked s f session [] = refl
  loop-asked s f session (Input.over ∷ inputs) = refl
  loop-asked s f session (Input.line none a now sendable ∷ inputs) = refl
  loop-asked s f session (Input.line (some incoming) a now sendable ∷ inputs) =
      let (s', f', result) =
        on_line extension decode outbound complaint s f session incoming a now in
      let here = on_line-asked s f session incoming a now in
      let cut = cut-goes_on result (asked_by incoming) sendable here in
      let rest = loop-asked s' f' session inputs in
      let (s'', f'', later) = loop extension decode outbound complaint s' f' session inputs in
      elim (Bool-cases (goes_on extension decode outbound complaint result sendable)) [
        | inl on ↦
            rw on
              (rw (cut ∙ ap not on) (answered-append result later ∙ ap₂ (λ x y. x ++ y) here rest))
        | inr off ↦ rw off (rw (cut ∙ ap not off) refl)
      ]
