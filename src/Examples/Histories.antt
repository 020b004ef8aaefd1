-- ===== src/Examples/Histories.antt =====
-- The theorem on a room's history, at a room that the session may read.
use silta.Common.{true, ℕ, none, some, [], ◌∷◌, String, Option}
use silta.Protocol.Commands.{FetchMessages, FetchMessage, SearchMessages}
use silta.Inbound.Content.{MessageType}
use silta.Outbound.History.{TimelineEvent, Page, Regex}
use silta.Outbound.Readers.{Unread, do_fetch_messages, do_search_messages, do_fetch_message}
use silta.Outbound.Reading.{Readable, OfRoom, From, Loaded, history-Disclosed}
use silta.Outbound.Answers.{Disclosed, one, listing}
use silta.Examples.Connections.{shared}
use silta.Examples.Posts.{matrix, say}

abbrev remark : TimelineEvent Unit
remark = TimelineEvent.room_message (record {
  sender = "@bot:example.org";
  event_id = "$1";
  origin_server_ts = 7;
  relates_to = none;
  msgtype = MessageType.text "hello";
})

abbrev page : Page Unit
page = record { chunk = remark ∷ TimelineEvent.other_event 6 ∷ []; end = some "t1" }

abbrev messages : Unit {0} → String → ℕ → Option String → ℕ → Option (Page Unit)
messages world room pages from limit = some page

abbrev tell : Unread → String
tell unread = "not read"

abbrev regex : Regex
regex = record { find = λ text. some 0; is_match = λ name. true }

abbrev fetch : FetchMessages
fetch = record { room_id = "!room"; limit = some 3; from = none }

abbrev search : SearchMessages
search = record { room_id = "!room"; pattern = "hello"; limit = none; from = none }

abbrev single : FetchMessage
single = record { room_id = "!room"; event_id = "$1" }

abbrev same_text : String → String
same_text text = text

abbrev no_guess : String → Option String
no_guess name = none

abbrev a_time : ℕ → String
a_time ms = "2026-01-01T00:00:00Z"

abbrev load : Unit {0} → String → String → Option (TimelineEvent Unit)
load world room event = some remark

history-Disclosed_example :
    Disclosed listing
      (OfRoom matrix say tell same_text no_guess a_time messages shared "!room")
      (Readable matrix say tell same_text no_guess a_time messages shared "bot" "!room")
      (do_fetch_messages matrix say tell same_text no_guess a_time messages shared "bot" fetch)
    × Disclosed
        (λ scan. scan.messages)
        (OfRoom matrix say tell same_text no_guess a_time messages shared "!room")
        (Readable matrix say tell same_text no_guess a_time messages shared "bot" "!room")
        (do_search_messages matrix say tell same_text no_guess a_time messages
          (λ pattern. some regex)
          shared
          "bot"
          search)
    × Disclosed one
        (From matrix say tell same_text no_guess a_time messages shared
          (Loaded matrix say tell same_text no_guess a_time messages load shared "!room" "$1"))
        (Readable matrix say tell same_text no_guess a_time messages shared "bot" "!room")
        (do_fetch_message matrix say tell same_text no_guess a_time messages load shared "bot"
          single)
history-Disclosed_example =
    history-Disclosed matrix say tell same_text no_guess a_time messages load
      (λ pattern. some regex) shared "bot" fetch search single
