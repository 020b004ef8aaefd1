-- ===== src/Outbound/Disclosed.antt =====
-- What the commands on a room's history read back to a session.
use mathlib.Core.Option
use mathlib.Core.Path.{subst}
use mathlib.Core.List.{append_assoc}
use silta.Common.{
  ◌≡◌, refl, ◌∙◌, ◌++◌, ℕ, zero, suc, String, Bool, true, false, Option, none, some, List, [], ◌∷◌,
  inl, inr, All, All-append, Bool-cases, Option-cases, arith, is_some, leb, length, ◌||◌,
}
use silta.Protocol.Commands.{HistoryMessage}
use silta.Config.Routing.{Routing, is_bot, person_for}
use silta.Config.Types.{PersonConfig}
use silta.Inbound.Content.{parse, Parsed}
use silta.Inbound.Types.{Message}
use silta.Server.Connection.{Scan}
use silta.Outbound.History.{
  TimelineEvent, Page, text_of, written_by, from_person, history_message, kept, sifted, examine,
  next, scan_pages,
}

-- the bot's own, or by a person of the configuration
unfoldable pub IsKnown : Routing → HistoryMessage → Type 0
IsKnown r m = (is_bot r m.sender || is_some (person_for r m.sender)) ≡ true

unfoldable pub AllKnown : Routing → Option HistoryMessage → Type 0
AllKnown r none = Unit
AllKnown r (some m) = IsKnown r m

-- it satisfies the condition, if it is there
unfoldable pub Holds : (HistoryMessage → Type 0) → Option HistoryMessage → Type 0
Holds P none = Unit
Holds P (some m) = P m

kept-All : (P : HistoryMessage → Type 0) (o : Option HistoryMessage) → Holds P o → All P (kept o)
unfolding Holds
kept-All P none h = tt
kept-All P (some m) h = (h, tt)

-- the message again, but for where a search found its text
unfoldable pub Alike : HistoryMessage → Option HistoryMessage → Type 0
Alike m none = Unit
Alike m (some k) = record m { match_start = k.match_start } ≡ k

-- a filter leaves messages as they are
abbrev pub IsPlain : (HistoryMessage → Option HistoryMessage) → Type 0
IsPlain keep = (m : HistoryMessage) → Alike m (keep m)

unfoldable pub ScanHolds : (HistoryMessage → Type 0) → Option Scan → Type 0
ScanHolds P none = Unit
ScanHolds P (some scan) = All P scan.messages

module _ {Source : Type 0} (remove_fallback : String → String) (guess : String → Option String)
    (rfc3339_utc : ℕ → String) (r : Routing) where
  written-AllKnown :
      (own : Bool) (person : Option PersonConfig) (m : Message Source) (parsed : Parsed Source)
      → (is_bot r m.sender || is_some (person_for r m.sender)) ≡ true
      → AllKnown r (
          Option.map
            (λ content. written_by remove_fallback guess rfc3339_utc own person m parsed content)
            (text_of remove_fallback guess rfc3339_utc parsed.body))
  unfolding AllKnown IsKnown
  written-AllKnown own person m parsed h =
      elim (Option-cases (text_of remove_fallback guess rfc3339_utc parsed.body)) [
        | inl e ↦ rw e tt
        | inr (content, e) ↦ rw e h
      ]

  from_person-AllKnown :
      (person : Option PersonConfig) (m : Message Source) (parsed : Parsed Source)
      → person_for r m.sender ≡ person
      → AllKnown r (from_person remove_fallback guess rfc3339_utc person m parsed)
  unfolding AllKnown
  from_person-AllKnown none m parsed e = tt
  from_person-AllKnown (some person) m parsed e =
      written-AllKnown false (some person) m parsed (ground arith)

  pub history_message-AllKnown :
      (event : TimelineEvent Source)
      → AllKnown r (history_message remove_fallback guess rfc3339_utc r event)
  unfolding history_message AllKnown
  history_message-AllKnown (TimelineEvent.room_message m) =
      let parsed = parse remove_fallback guess m.relates_to m.msgtype in
      elim (Bool-cases (is_bot r m.sender)) [
        | inl own ↦ rw own (written-AllKnown true none m parsed (ground arith))
        | inr other ↦ rw other (from_person-AllKnown (person_for r m.sender) m parsed refl)
      ]
  history_message-AllKnown (TimelineEvent.other_event ts) = tt
  history_message-AllKnown TimelineEvent.unreadable_event = tt

  -- the message is what such an event of the timeline says, by somebody known
  abbrev pub Given : (TimelineEvent Source → Type 0) → HistoryMessage → Type 0
  Given Served m =
      IsKnown r m
      × (event : TimelineEvent Source) × (original : HistoryMessage) × Served event
      × (history_message remove_fallback guess rfc3339_utc r event ≡ some original)
      × (record original { match_start = m.match_start } ≡ m)

  found-Given :
      (Served : TimelineEvent Source → Type 0) (event : TimelineEvent Source)
      (original : HistoryMessage) (o : Option HistoryMessage)
      → Served event
      → history_message remove_fallback guess rfc3339_utc r event ≡ some original
      → IsKnown r original
      → Alike original o
      → Holds (Given Served) o
  unfolding Holds Alike IsKnown
  found-Given Served event original none served e known alike = tt
  found-Given Served event original (some k) served e known alike =
      (subst (IsKnown r) alike known, event, original, served, e, alike)

  pub event-Given :
      (keep : HistoryMessage → Option HistoryMessage) (Served : TimelineEvent Source → Type 0)
      (event : TimelineEvent Source)
      → IsPlain keep
      → Served event
      → Holds
          (Given Served)
          (sifted keep (history_message remove_fallback guess rfc3339_utc r event))
  event-Given keep Served event plain served =
      go (history_message remove_fallback guess rfc3339_utc r event) refl
        (history_message-AllKnown event)
    where
      go :
          (o : Option HistoryMessage)
          → history_message remove_fallback guess rfc3339_utc r event ≡ o
          → AllKnown r o
          → Holds (Given Served) (sifted keep o)
      go none e known = unfold Holds in tt
      go (some original) e known =
          found-Given Served event original (keep original) served e (unfold AllKnown in known)
            (plain original)

  module _ (keep : HistoryMessage → Option HistoryMessage) (P : HistoryMessage → Type 0) where
    -- what the filter leaves of an event satisfies the condition
    abbrev pub IsGood : TimelineEvent Source → Type 0
    IsGood event = Holds P (sifted keep (history_message remove_fallback guess rfc3339_utc r event))

    examine-All :
        (chunk : List (TimelineEvent Source)) (scan : Scan)
        → All IsGood chunk
        → All P scan.messages
        → All P (examine remove_fallback guess rfc3339_utc r keep scan chunk).messages
    unfolding examine
    examine-All [] scan good h = h
    examine-All (event ∷ chunk) scan good h =
        examine-All chunk _ good.1 (All-append P scan.messages _ h (kept-All P _ good.0))

    module _ (messages : ℕ → Option String → ℕ → Option (Page Source)) (page_size wanted : ℕ)
        (good : (pages : ℕ) (from : Option String) (page : Page Source)
          → messages pages from page_size ≡ some page
          → All IsGood page.chunk) where
      pub scan_pages-All :
          (left pages : ℕ) (from : Option String) (scan : Scan)
          → All P scan.messages
          → ScanHolds P (
              scan_pages remove_fallback guess rfc3339_utc r keep messages page_size wanted left
                pages from scan)
      unfolding scan_pages ScanHolds
      scan_pages-All zero pages from scan h = elim (Option-cases (messages pages from page_size)) [
        | inl e ↦ rw (ScanHolds, e) tt
        | inr (page, e) ↦ rw (ScanHolds, e) (examine-All page.chunk scan (good pages from page e) h)
      ]
      scan_pages-All (suc left) pages from scan h =
          elim (Option-cases (messages pages from page_size)) [
            | inl e ↦ rw (ScanHolds, e) tt
            | inr (page, e) ↦
                let scan' = examine remove_fallback guess rfc3339_utc r keep scan page.chunk in
                let all : All P scan'.messages =
                  examine-All page.chunk scan (good pages from page e) h in
                elim (Option-cases
                  (next remove_fallback guess rfc3339_utc r keep messages page_size wanted page)) [
                    | inl last ↦ rw (ScanHolds, e, last) all
                    | inr (end, more) ↦ elim (Bool-cases (leb wanted (length scan'.messages))) [
                      | inl enough ↦ rw (ScanHolds, e, more, enough) all
                      | inr few ↦
                          rw (ScanHolds, e, more, few)
                            (scan_pages-All left (suc pages) (some end) scan' all)
                    ]
                  ]
          ]

-- an event of a page
abbrev pub InPage : {Source : Type 0} → Page Source → TimelineEvent Source → Type 0
InPage {Source} page event =
    (before : List (TimelineEvent Source)) × (after : List (TimelineEvent Source)) × (before
        ++ event ∷ after
      ≡ page.chunk)

-- an event that the server sends in answer to a request for a room's timeline
abbrev pub Sent :
    {Source : Type 0}
    → (ℕ → Option String → ℕ → Option (Page Source))
    → TimelineEvent Source
    → Type 0
Sent {Source} messages event =
    (pages : ℕ) × (from : Option String) × (size : ℕ) × (page : Page Source) × (messages pages from
        size
      ≡ some page)
    × InPage page event

pub all-InPage :
    {Source : Type 0} (before chunk : List (TimelineEvent Source)) (page : Page Source)
    → before ++ chunk ≡ page.chunk
    → All (InPage page) chunk
all-InPage before [] page e = tt
all-InPage before (event ∷ chunk) page e = (
  (before, chunk, e),
  all-InPage (before ++ event ∷ []) chunk page (append_assoc before (event ∷ []) chunk ∙ e),
)
