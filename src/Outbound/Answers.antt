-- ===== src/Outbound/Answers.antt =====
-- What an answer to a question on a room's history holds, message by message.
use silta.Common.{
  refl, String, Option, none, some, List, [], ◌∷◌, ◌⊎◌, inl, inr, All, Bool-cases, Option-cases,
}
use silta.Protocol.Commands.{HistoryMessage}
use silta.Server.Connection.{Fail, Scan}
use silta.Outbound.History.{Regex}
use silta.Outbound.Readers.{Unread, any_match, matching, scanned_or, listed}
use silta.Outbound.Disclosed.{Alike, IsPlain, ScanHolds}

pub matching-IsPlain : (regex : Regex) → IsPlain (matching regex)
unfolding Alike matching
matching-IsPlain regex m = elim (Option-cases (regex.find m.text)) [
  | inr (start, e) ↦ rw (Alike, e) refl
  | inl e ↦ elim (Bool-cases (any_match regex m.attachments)) [
    | inl found ↦ rw (Alike, e, found) refl
    | inr absent ↦ rw (Alike, e, absent) tt
  ]
]

pub all-IsPlain : IsPlain (λ m. some m)
unfolding Alike
all-IsPlain m = refl

-- every message of an answer satisfies the condition
unfoldable pub AnswerHolds :
    {A : Type 0} → (A → List HistoryMessage) → (HistoryMessage → Type 0) → A ⊎ Fail → Type 0
AnswerHolds of P (inl answer) = All P (of answer)
AnswerHolds of P (inr failed) = Unit

-- and an answer is about a room that satisfies its own
unfoldable pub Disclosed :
    {A : Type 0}
    → (A → List HistoryMessage)
    → (HistoryMessage → Type 0)
    → Type 0
    → A ⊎ Fail
    → Type 0
Disclosed of P Room (inl answer) = Room × All P (of answer)
Disclosed of P Room (inr failed) = Unit

abbrev pub one : HistoryMessage → List HistoryMessage
one m = m ∷ []

abbrev pub listing : List HistoryMessage × Option String → List HistoryMessage
listing answer = answer.0

pub scanned-Holds :
    (tell : Unread → String) (P : HistoryMessage → Type 0) (o : Option Scan)
    → ScanHolds P o
    → AnswerHolds (λ scan. scan.messages) P (scanned_or tell o)
unfolding ScanHolds AnswerHolds
scanned-Holds tell P none h = tt
scanned-Holds tell P (some scan) h = h

pub listed-Holds :
    (P : HistoryMessage → Type 0) (result : Scan ⊎ Fail)
    → AnswerHolds (λ scan. scan.messages) P result
    → AnswerHolds listing P (listed result)
unfolding AnswerHolds
listed-Holds P (inl scan) h = h
listed-Holds P (inr failed) h = h
