-- ===== src/Outbound/History.antt =====
-- `fetch_messages`, `search_messages` and `fetch_message` of crates/siltad/src/outbound.rs. They read
-- and change nothing. What the server answers to each request, the regular expressions and the texts
-- of times are parameters.
use mathlib.Core.Option
use silta.Common.{
  ℕ, zero, suc, String, Bool, true, false, Option, none, some, List, [], ◌∷◌, ◌++◌, length, leb,
  ltb, if◌then◌else◌,
}
use silta.Protocol.Commands.{HistoryAttachment, HistoryMessage}
use silta.Config.Types.{PersonConfig}
use silta.Config.Routing.{Routing, is_bot, person_for}
use silta.Inbound.Content.{Body, Parsed, parse}
use silta.Inbound.Types.{Message}
use silta.Server.Connection.{Scan}

abbrev pub history_default : ℕ
history_default = 20

abbrev pub history_max : ℕ
history_max = 100

abbrev pub history_max_pages : ℕ
history_max_pages = 5

abbrev pub search_page : ℕ
search_page = 100

abbrev pub search_max_pages : ℕ
search_max_pages = 10

-- `limit.unwrap_or(HISTORY_DEFAULT).clamp(1, HISTORY_MAX)`
unfoldable pub clamped : Option ℕ → ℕ
clamped none = history_default
clamped (some limit) =
    if ltb limit 1 then 1 else if ltb history_max limit then history_max else limit

-- an event of the timeline: a room message with its content, another event with its time, or one
-- that cannot be read
pub data TimelineEvent (Source : Type 0) : Type 0 where
  room_message : Message Source → TimelineEvent Source
  other_event : (ts : ℕ) → TimelineEvent Source
  unreadable_event : TimelineEvent Source

pub record Page (Source : Type 0) : Type 0 where
  pub chunk : List (TimelineEvent Source)
  pub end : Option String

-- `find`: how many characters stand before the first match
pub record Regex : Type 0 where
  pub find : String → Option ℕ
  pub is_match : String → Bool

abbrev pub or_zero : Option ℕ → ℕ
or_zero none = zero
or_zero (some n) = n

abbrev pub kept : Option HistoryMessage → List HistoryMessage
kept none = []
kept (some m) = m ∷ []

abbrev pub sifted :
    (HistoryMessage → Option HistoryMessage) → Option HistoryMessage → Option HistoryMessage
sifted keep none = none
sifted keep (some m) = keep m

module _ {Source : Type 0} (remove_fallback : String → String) (guess : String → Option String)
    (rfc3339_utc : ℕ → String) where
  abbrev pub text_of : Body Source → Option (String × List HistoryAttachment)
  text_of (Body.text_body text) = some (text, [])
  text_of (Body.media_body m) =
      some (m.caption, (record { name = m.name; mime = m.mime; size = or_zero m.size }) ∷ [])
  text_of Body.edit = none
  text_of (Body.other_body msgtype) = none

  abbrev pub written_by :
      Bool
      → Option PersonConfig
      → Message Source
      → Parsed Source
      → String × List HistoryAttachment
      → HistoryMessage
  written_by own person m parsed (text, attachments) = record {
    event_id = m.event_id;
    sender = m.sender;
    person = Option.map (λ p. p.name) person;
    role = Option.map (λ p. p.role) person;
    own = own;
    ts = rfc3339_utc m.origin_server_ts;
    in_reply_to = parsed.in_reply_to;
    thread = parsed.thread;
    text = text;
    match_start = none;
    attachments = attachments;
  }

  abbrev pub from_person :
      Option PersonConfig → Message Source → Parsed Source → Option HistoryMessage
  from_person none m parsed = none
  from_person (some person) m parsed =
      Option.map (λ content. written_by false (some person) m parsed content) (text_of parsed.body)

  unfoldable pub history_message : Routing → TimelineEvent Source → Option HistoryMessage
  unfolding is_bot person_for parse
  history_message r (TimelineEvent.room_message m) =
      let parsed = parse remove_fallback guess m.relates_to m.msgtype in
      if is_bot r m.sender
      then Option.map (λ content. written_by true none m parsed content) (text_of parsed.body)
      else from_person (person_for r m.sender) m parsed
  history_message r (TimelineEvent.other_event ts) = none
  history_message r TimelineEvent.unreadable_event = none

  abbrev pub time_of : TimelineEvent Source → Option String → Option String
  time_of (TimelineEvent.room_message m) until = some (rfc3339_utc m.origin_server_ts)
  time_of (TimelineEvent.other_event ts) until = some (rfc3339_utc ts)
  time_of TimelineEvent.unreadable_event until = until

  module _ (r : Routing) (keep : HistoryMessage → Option HistoryMessage) where
    -- the events of a page, one after the other
    unfoldable pub examine : Scan → List (TimelineEvent Source) → Scan
    unfolding history_message
    examine scan [] = scan
    examine scan (event ∷ chunk) =
        examine
          (record {
            messages = scan.messages ++ kept (sifted keep (history_message r event));
            more = scan.more;
            scanned = suc scan.scanned;
            until = time_of event scan.until;
          })
          chunk

    module _ (messages : ℕ → Option String → ℕ → Option (Page Source)) (page_size wanted : ℕ) where
      -- where the next page begins, none at the start of the room
      abbrev pub next : Page Source → Option String
      next page = elim page.chunk [ [] ↦ none | _ ∷ _ ↦ page.end ]

      -- the loop, once `pages` are read: at most `left` pages follow the one it reads; none: a
      -- request failed
      unfoldable pub scan_pages : ℕ → ℕ → Option String → Scan → Option Scan
      unfolding examine
      scan_pages zero pages from scan = elim (messages pages from page_size) [
        | none ↦ none
        | some page ↦ some (record (examine scan page.chunk) { more = next page })
      ]
      scan_pages (suc left) pages from scan = elim (messages pages from page_size) [
        | none ↦ none
        | some page ↦
            let scan' = examine scan page.chunk in
            elim (next page) [
              | none ↦ some (record scan' { more = none })
              | some end ↦ elim (leb wanted (length scan'.messages)) [
                | true ↦ some (record scan' { more = some end })
                | false ↦ scan_pages left (suc pages) (some end) scan'
              ]
            ]
      ]
