-- ===== src/Server/Ended.antt =====
-- What a connection leaves behind when it ends.
use silta.Common.{
  ℕ, ◌≡◌, refl, ap, ◌∙◌, Bool, true, false, Option, none, some, List, [], ◌∷◌, String, arith,
  if◌then◌else◌, is_some, is_none, Bool-cases, inl, inr,
}
use silta.Common.Assoc.{lookup, lookup-insert_own, lookup-remove}
use text.Mathlib.TextPositions.{eq_refl}
use silta.Protocol.{ErrorCode}
use silta.Protocol.Commands.{CmdKind, SendFile, ClientMessage, Incoming, Welcome}
use silta.Transfer.Receiver.{TransferError, Received}
use silta.Registry.Table.{Registry, is_connected, release, Stamped, ack}
use silta.Watch.Types.{Watch, State}
use silta.Watch.Alerts
use silta.Daemon.State.{Daemon, acked, session_connected, session_disconnected}
use silta.Server.Connection.{Shared, Outbound, Files, Answers, execute, affected}
use silta.Server.Loop.{Input, goes_on, on_line, on_cmd, loop, close, on_acked, send_received}
use silta.Server.Handshake.{Answer, greet}
use silta.Server.Session.{Course, handle, no_files}
use silta.Server.Admission.{Reason, greet-Reason}

-- does the watch count the session as away?
abbrev pub away_in : Option State → Bool
away_in none = false
away_in (some state) = is_some state.disconnected_since

abbrev pub counted_away : Watch → String → Bool
counted_away w session = away_in (lookup session w.sessions)

connected-away :
    (w : Watch) (session : String) (now : ℕ) (st : State)
    → lookup session w.sessions ≡ some st
    → (st' : State) × (lookup session (Alerts.connected w session now).0.sessions ≡ some st')
      × (st'.disconnected_since ≡ none)
unfolding Alerts.connected Alerts.welcome
connected-away w session now st h = rw h (
  record st { disconnected_since = none; alerted_at = none },
  lookup-insert_own session _ w.sessions,
  refl,
)

disconnected-away :
    (w : Watch) (session : String) (now : ℕ) (st : State)
    → lookup session w.sessions ≡ some st
    → counted_away (Alerts.disconnected w session now) session ≡ true
unfolding Alerts.disconnected
disconnected-away w session now st h = rw h (go st h)
  where
    go :
        (st : State)
        → lookup session w.sessions ≡ some st
        → counted_away (Alerts.disconnected_state w session now (some st)) session ≡ true
    go st h = elim (Bool-cases (is_none st.disconnected_since)) [
      | inl there ↦ rw there (
          rw (lookup-insert_own session (record st { disconnected_since = some now }) w.sessions)
            refl)
      | inr gone ↦ rw gone (rw h (ground arith))
    ]

is_connected-release :
    {Channel : Type 0} (r : Registry Channel) (session : String) (now : ℕ)
    → is_connected (release r session now).0 session ≡ false
unfolding release is_connected
is_connected-release r session now =
    ground (arith, eq_refl session, lookup-remove session session r.inner)

module _ {Channel World : Type 0} (extension : String → Option String)
    (decode : String → Option (List ℕ)) (outbound : Outbound Channel World)
    (complaint : String → Option TransferError → String) where
  alerts-acked :
      (d : Daemon Channel) (session : String) (e : Stamped) (now : ℕ)
      → (acked d session e.1 e.0 now).alerts ≡ d.alerts
  unfolding acked
  alerts-acked d session e now = ground arith

  alerts-send_received :
      (s : Shared Channel World) (f : Files) (session : String) (id : ℕ) (file : SendFile)
      (there : Option Received)
      → (send_received extension decode outbound complaint s f session id file
          there).0.daemon.alerts
        ≡ s.daemon.alerts
  unfolding affected
  alerts-send_received s f session id file none = refl
  alerts-send_received s f session id file (some there) = refl

  alerts-on_cmd :
      (s : Shared Channel World) (f : Files) (session : String) (id : ℕ) (kind : CmdKind)
      → (on_cmd extension decode outbound complaint s f session id kind).0.daemon.alerts
        ≡ s.daemon.alerts
  unfolding execute affected
  alerts-on_cmd s f session id (CmdKind.reply c) = refl
  alerts-on_cmd s f session id (CmdKind.react c) = refl
  alerts-on_cmd s f session id (CmdKind.edit c) = refl
  alerts-on_cmd s f session id (CmdKind.send_file c) =
      alerts-send_received s f session id c (lookup c.transfer f.received)
  alerts-on_cmd s f session id (CmdKind.fetch_messages c) = refl
  alerts-on_cmd s f session id (CmdKind.fetch_message c) = refl
  alerts-on_cmd s f session id (CmdKind.search_messages c) = refl
  alerts-on_cmd s f session id (CmdKind.typing c) = refl

  alerts-on_acked :
      (s : Shared Channel World) (session : String) (registry : Registry Channel)
      (found : Option Stamped) (now : ℕ)
      → (on_acked extension decode outbound complaint s session registry found now).daemon.alerts
        ≡ s.daemon.alerts
  alerts-on_acked s session registry none now = refl
  alerts-on_acked s session registry (some found) now =
      alerts-acked (record s.daemon { registry = registry }) session found now

  alerts-on_line :
      (s : Shared Channel World) (f : Files) (session : String) (incoming : Incoming) (a : Answers)
      (now : ℕ)
      → (on_line extension decode outbound complaint s f session incoming a now).0.daemon.alerts
        ≡ s.daemon.alerts
  unfolding on_line
  alerts-on_line s f session (Incoming.message (ClientMessage.cmd c)) a now =
      alerts-on_cmd s f session c.id c.kind
  alerts-on_line s f session (Incoming.message (ClientMessage.file head)) a now = refl
  alerts-on_line s f session (Incoming.message (ClientMessage.chunk c)) a now = refl
  alerts-on_line s f session (Incoming.message (ClientMessage.file_end e)) a now = refl
  alerts-on_line s f session (Incoming.message (ClientMessage.ack k)) a now =
      let (registry, found) = ack s.daemon.registry session k.event_id in
      alerts-on_acked s session registry found now
  alerts-on_line s f session (Incoming.message (ClientMessage.hello _)) a now = refl
  alerts-on_line s f session (Incoming.bad_request id message) a now = refl
  alerts-on_line s f session (Incoming.ignored message) a now = refl

  alerts-loop :
      (s : Shared Channel World) (f : Files) (session : String) (inputs : List Input)
      → (loop extension decode outbound complaint s f session inputs).0.daemon.alerts
        ≡ s.daemon.alerts
  unfolding loop
  alerts-loop s f session [] = refl
  alerts-loop s f session (Input.over ∷ inputs) = refl
  alerts-loop s f session (Input.line none a now sendable ∷ inputs) = refl
  alerts-loop s f session (Input.line (some incoming) a now sendable ∷ inputs) =
      let (s', f', result) =
        on_line extension decode outbound complaint s f session incoming a now in
      let here = alerts-on_line s f session incoming a now in
      elim (Bool-cases (goes_on extension decode outbound complaint result sendable)) [
        | inl on ↦ rw on (alerts-loop s' f' session inputs ∙ here)
        | inr off ↦ rw off here
      ]

  -- A newcomer who is refused changes nothing of the daemon, of the disk or of anything else, and
  -- is refused for the reason that the code says: the first line is not a hello or none came in
  -- time; another protocol; a session that is not configured; another user than the session's, or
  -- one that is not known; a session that somebody is connected for.
  pub handle-Reason :
      (s : Shared Channel World) (c : Course Channel) (max_bytes : ℕ) (code : ErrorCode)
      → greet s.daemon c.peer c.channel c.first ≡ Answer.refused code
      → ((handle extension decode outbound complaint max_bytes s c).0 ≡ s)
        × Reason code s.daemon c.peer c.first
  unfolding handle
  handle-Reason s c max_bytes code h =
      (rw h refl, greet-Reason s.daemon c.peer c.channel c.first code h)

  -- A session that was welcomed is free again when its connection ends, however it ends. But the
  -- watch counts it as away only if the messages queued for it could all be written: if one could
  -- not, the watch goes on counting it as connected. If not even the welcome could be written, the
  -- watch counts as before. The session is one that the watch knows.
  pub handle-away :
      (s : Shared Channel World) (c : Course Channel) (max_bytes : ℕ) (session : String)
      (w : Welcome) (registry : Registry Channel) (st : State)
      → greet s.daemon c.peer c.channel c.first ≡ Answer.welcomed session w registry
      → lookup session s.daemon.alerts.sessions ≡ some st
      → let after = (handle extension decode outbound complaint max_bytes s c).0.daemon in
        (is_connected after.registry session ≡ false)
        × (counted_away after.alerts session
            ≡ (if c.welcomes then c.backlog else is_some st.disconnected_since))
  unfolding handle session_connected session_disconnected close
  handle-away s c max_bytes session w registry st h known =
      let (st', found, here) = connected-away s.daemon.alerts session c.begun st known in
      rw h (elim (Bool-cases c.welcomes) [
        | inr unsaid ↦ rw unsaid (is_connected-release registry session c.ended, rw known refl)
        | inl said ↦ rw said (elim (Bool-cases c.backlog) [
          | inr lost ↦ rw lost (is_connected-release _ session c.ended, rw found (rw here refl))
          | inl all ↦ rw all (
            is_connected-release _ session c.ended,
            disconnected-away _ session c.ended st' (
                ap (λ (w : Watch). lookup session w.sessions)
                  (alerts-loop _ (no_files extension decode outbound complaint max_bytes session)
                    session c.inputs)
                ∙ found),
          )
        ])
      ])
