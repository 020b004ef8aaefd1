-- ===== src/Outbound/Reading.antt =====
-- A session reads back only a room it may read, and only messages of people that are known.
use mathlib.Core.Path.{subst}
use silta.Common.{
  ◌≡◌, refl, ℕ, zero, String, true, Option, none, some, List, [], ◌∷◌, ◌⊎◌, inl, inr, ◌-◌, All,
  Bool-cases, Option-cases, arith,
}
use silta.Protocol.Commands.{FetchMessages, FetchMessage, SearchMessages, HistoryMessage}
use silta.Config.Routing.{may_read}
use silta.Server.Connection.{Shared, Fail}
use silta.Outbound.Matrix.{RoomView, Matrix}
use silta.Outbound.Sending.{Trouble}
use silta.Outbound.Commands.{denied}
use silta.Outbound.Permitted.{not_denied}
use silta.Outbound.History.{
  history_max_pages, search_page, search_max_pages, clamped, TimelineEvent, Page, Regex,
  history_message, sifted,
}
use silta.Outbound.Readers.{
  Unread, matching, nothing_yet, in_reach, readable_room, guarded, scan_history, do_fetch_messages,
  searched, do_search_messages, read_as, do_fetch_message,
}
use silta.Outbound.Answers.{
  matching-IsPlain, all-IsPlain, AnswerHolds, Disclosed, one, listing, scanned-Holds, listed-Holds,
}
use silta.Outbound.Disclosed.{
  Holds, IsPlain, Given, event-Given, IsGood, scan_pages-All, InPage, Sent, all-InPage,
}

module _ {Channel World Content Source : Type 0} (matrix : Matrix World Content)
    (say : Trouble → String) (tell : Unread → String) (remove_fallback : String → String)
    (guess : String → Option String) (rfc3339_utc : ℕ → String)
    (messages : World → String → ℕ → Option String → ℕ → Option (Page Source)) where
  -- the bot is in the room, and the routing lets the session read there
  abbrev pub Readable : Shared Channel World → String → String → Type 0
  Readable s session room_id =
      (room : RoomView) × (members : List String) × (matrix.get_room s.world room_id ≡ some room)
      × (room.joined ≡ true)
      × (room.members ≡ some members)
      × (may_read s.daemon.routing session room_id members room.shape ≡ some none)

  in_reach-Readable :
      (s : Shared Channel World) (session room_id : String) (room : Option RoomView)
      → matrix.get_room s.world room_id ≡ room
      → in_reach matrix say tell remove_fallback guess rfc3339_utc messages s session room_id room
        ≡ none
      → Readable s session room_id
  in_reach-Readable s session room_id none e h = absurd (ground arith)
  in_reach-Readable s session room_id (some room) e h = elim (Option-cases room.members) [
    | inl unknown ↦ absurd (ground arith)
    | inr (members, m) ↦
        let answer = may_read s.daemon.routing session room_id members room.shape in
        elim (Bool-cases (denied answer)) [
          | inl refused ↦ absurd (ground arith)
          | inr granted ↦ (room, members, e, ground arith, m, not_denied answer granted)
        ]
  ]

  readable_room-Readable :
      (s : Shared Channel World) (session room_id : String)
      → readable_room matrix say tell remove_fallback guess rfc3339_utc messages s session room_id
        ≡ none
      → Readable s session room_id
  unfolding readable_room
  readable_room-Readable s session room_id h = elim (Bool-cases (matrix.is_room_id room_id)) [
    | inl valid ↦
        in_reach-Readable s session room_id (matrix.get_room s.world room_id) refl (ground arith)
    | inr wrong ↦ absurd (ground arith)
  ]

  -- a message of a timeline of which the condition says which events it has
  abbrev pub From : Shared Channel World → (TimelineEvent Source → Type 0) → HistoryMessage → Type 0
  From s Served = Given remove_fallback guess rfc3339_utc s.daemon.routing Served

  -- a message of the room's timeline
  abbrev pub OfRoom : Shared Channel World → String → HistoryMessage → Type 0
  OfRoom s room_id = From s (Sent (messages s.world room_id))

  guarded-Disclosed :
      {A : Type 0} (of : A → List HistoryMessage) (P : HistoryMessage → Type 0)
      (s : Shared Channel World) (session room_id : String) (checked : Option Fail)
      (result : A ⊎ Fail)
      → readable_room matrix say tell remove_fallback guess rfc3339_utc messages s session room_id
        ≡ checked
      → AnswerHolds of P result
      → Disclosed of P (Readable s session room_id) (guarded checked result)
  unfolding Disclosed AnswerHolds
  guarded-Disclosed of P s session room_id (some failed) result e h = tt
  guarded-Disclosed of P s session room_id none (inl answer) e h =
      (readable_room-Readable s session room_id e, h)
  guarded-Disclosed of P s session room_id none (inr failed) e h = tt

  page-IsGood :
      (s : Shared Channel World) (room_id : String) (keep : HistoryMessage → Option HistoryMessage)
      (page_size : ℕ)
      → IsPlain keep
      → (pages : ℕ) (from : Option String) (page : Page Source)
      → messages s.world room_id pages from page_size ≡ some page
      → All
          (IsGood remove_fallback guess rfc3339_utc s.daemon.routing keep (OfRoom s room_id))
          page.chunk
  page-IsGood s room_id keep page_size plain pages from page e =
      good page.chunk (all-InPage [] page.chunk page refl)
    where
      good :
          (chunk : List (TimelineEvent Source))
          → All (InPage page) chunk
          → All
              (IsGood remove_fallback guess rfc3339_utc s.daemon.routing keep (OfRoom s room_id))
              chunk
      good [] here = tt
      good (event ∷ chunk) here = (
        event-Given remove_fallback guess rfc3339_utc s.daemon.routing keep
            (Sent (messages s.world room_id)) event plain (pages, from, page_size, page, e, here.0),
        good chunk here.1,
      )

  scan_history-Holds :
      (s : Shared Channel World) (room_id : String) (from : Option String)
      (page_size wanted max_pages : ℕ) (keep : HistoryMessage → Option HistoryMessage)
      → IsPlain keep
      → AnswerHolds
          (λ scan. scan.messages)
          (OfRoom s room_id)
          (scan_history matrix say tell remove_fallback guess rfc3339_utc messages s room_id from
            page_size wanted max_pages keep)
  unfolding scan_history
  scan_history-Holds s room_id from page_size wanted max_pages keep plain =
      scanned-Holds tell (OfRoom s room_id) _ (
        scan_pages-All remove_fallback guess rfc3339_utc s.daemon.routing keep (OfRoom s room_id)
          (messages s.world room_id) page_size wanted (page-IsGood s room_id keep page_size plain)
          (max_pages - 1) zero from nothing_yet tt)

  do_fetch_messages-Disclosed :
      (s : Shared Channel World) (session : String) (c : FetchMessages)
      → Disclosed listing
          (OfRoom s c.room_id)
          (Readable s session c.room_id)
          (do_fetch_messages matrix say tell remove_fallback guess rfc3339_utc messages s session c)
  unfolding do_fetch_messages
  do_fetch_messages-Disclosed s session c =
      guarded-Disclosed listing (OfRoom s c.room_id) s session c.room_id _ _ refl (
        listed-Holds (OfRoom s c.room_id) _ (
          scan_history-Holds s c.room_id c.from (clamped c.limit) (clamped c.limit)
            history_max_pages (λ m. some m) all-IsPlain))

  searched-Disclosed :
      (s : Shared Channel World) (session : String) (c : SearchMessages) (built : Option Regex)
      → Disclosed
          (λ scan. scan.messages)
          (OfRoom s c.room_id)
          (Readable s session c.room_id)
          (searched matrix say tell remove_fallback guess rfc3339_utc messages s session c built)
  unfolding Disclosed
  searched-Disclosed s session c none = tt
  searched-Disclosed s session c (some regex) =
      guarded-Disclosed (λ scan. scan.messages) (OfRoom s c.room_id) s session c.room_id _ _ refl
        (scan_history-Holds s c.room_id c.from search_page (clamped c.limit) search_max_pages
          (matching regex) (matching-IsPlain regex))

  module _ (load : World → String → String → Option (TimelineEvent Source)) where
    -- the event that the client has of the room under the id
    abbrev pub Loaded : Shared Channel World → String → String → TimelineEvent Source → Type 0
    Loaded s room_id event_id event = load s.world room_id event_id ≡ some event

    read_as-Holds :
        (s : Shared Channel World) (room_id event_id : String)
        (found : Option (TimelineEvent Source))
        → load s.world room_id event_id ≡ found
        → AnswerHolds one
            (From s (Loaded s room_id event_id))
            (read_as matrix say tell remove_fallback guess rfc3339_utc messages s found)
    unfolding AnswerHolds Holds
    read_as-Holds s room_id event_id none e = tt
    read_as-Holds s room_id event_id (some event) e =
        let read = history_message remove_fallback guess rfc3339_utc s.daemon.routing event in
        let given : Holds (From s (Loaded s room_id event_id)) (sifted (λ m. some m) read) =
          event-Given remove_fallback guess rfc3339_utc s.daemon.routing (λ m. some m)
            (Loaded s room_id event_id) event all-IsPlain e in
        elim (Option-cases read) [
          | inl nothing ↦ rw (AnswerHolds, nothing) tt
          | inr (m, there) ↦
              rw (AnswerHolds, there)
                (
                  subst (λ o. Holds (From s (Loaded s room_id event_id)) (sifted (λ k. some k) o))
                      there given,
                  tt,
                )
        ]

    do_fetch_message-Disclosed :
        (s : Shared Channel World) (session : String) (c : FetchMessage)
        → Disclosed one (From s (Loaded s c.room_id c.event_id)) (Readable s session c.room_id) (
            do_fetch_message matrix say tell remove_fallback guess rfc3339_utc messages load s
              session c)
    unfolding do_fetch_message Disclosed
    do_fetch_message-Disclosed s session c = elim (Bool-cases (matrix.is_event_id c.event_id)) [
      | inr odd ↦ rw (Disclosed, odd) tt
      | inl good ↦ rw good (
          guarded-Disclosed one (From s (Loaded s c.room_id c.event_id)) s session c.room_id _ _
            refl (read_as-Holds s c.room_id c.event_id (load s.world c.room_id c.event_id) refl))
    ]

  -- Whatever a session asks of a room's history, a list, a search or one message: what it is
  -- given is of a room that the bot is in, whose members are known, and that the routing lets the
  -- session read. Each message in it is the bot's own or a registered person's, and is what an
  -- event says that the server sent of this room's timeline, or that the client has of this room
  -- under the id asked for; a search adds to it where it found the text, and nothing else.
  pub history-Disclosed :
      (load : World → String → String → Option (TimelineEvent Source))
      (build : String → Option Regex) (s : Shared Channel World) (session : String)
      (fetch : FetchMessages) (search : SearchMessages) (single : FetchMessage)
      → Disclosed listing (OfRoom s fetch.room_id) (Readable s session fetch.room_id) (
          do_fetch_messages matrix say tell remove_fallback guess rfc3339_utc messages s session
            fetch)
        × Disclosed
            (λ scan. scan.messages)
            (OfRoom s search.room_id)
            (Readable s session search.room_id)
            (do_search_messages matrix say tell remove_fallback guess rfc3339_utc messages build s
              session search)
        × Disclosed one
            (From s (Loaded load s single.room_id single.event_id))
            (Readable s session single.room_id)
            (do_fetch_message matrix say tell remove_fallback guess rfc3339_utc messages load s
              session single)
  unfolding do_search_messages
  history-Disclosed load build s session fetch search single = (
    do_fetch_messages-Disclosed s session fetch,
    searched-Disclosed s session search (build search.pattern),
    do_fetch_message-Disclosed load s session single,
  )
