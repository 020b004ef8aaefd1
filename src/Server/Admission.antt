-- ===== src/Server/Admission.antt =====
-- Who is welcomed, and why others are refused.
use silta.Common.{
  ℕ, ◌≡◌, refl, Bool, true, false, Option, none, some, String, ◌⊎◌, inl, inr, is_some, ◌==◌, arith,
  Bool-cases, ap, Option-cases,
}
use silta.Common.Assoc.{lookup, lookup-insert}
use mathlib.Core.Path.{subst}
use text.Mathlib.TextPositions.{eq_refl}
use silta.Protocol.{ErrorCode}
use silta.Protocol.Commands.{Hello, Welcome, ClientMessage, Incoming, protocol_version}
use silta.Config.Routing.{Routing}
use silta.Config.Types.{SessionConfig}
use silta.Config.Routing
use silta.Registry.Table.{Registry, claim, is_connected}
use silta.Daemon.State.{Daemon}
use silta.Server.Handshake.{First, Answer, handshake, same_user, claimed, admit, greet}

-- the first line, if it is a hello
abbrev pub hello_of : First → Option Hello
hello_of (First.line (some (Incoming.message (ClientMessage.hello hello)))) = some hello
hello_of _ = none

-- whether a first line came that is no blank one, or the time for it is over
abbrev pub says : First → Bool
says First.timed_out = true
says (First.line (some _)) = true
says _ = false

-- what is true of a newcomer who is refused with a code
unfoldable pub Reason : {Channel : Type 0} → ErrorCode → Daemon Channel → Option ℕ → First → Type 0
Reason ErrorCode.bad_request daemon peer first = (hello_of first ≡ none) × (says first ≡ true)
Reason ErrorCode.protocol_mismatch daemon peer first =
    (hello : Hello) × (hello_of first ≡ some hello) × ((hello.protocol == protocol_version) ≡ false)
Reason ErrorCode.unknown_session daemon peer first =
    (hello : Hello) × (hello_of first ≡ some hello)
    × ((hello.protocol == protocol_version) ≡ true)
    × (Routing.session daemon.routing hello.session ≡ none)
Reason ErrorCode.wrong_user daemon peer first =
    (hello : Hello) × (hello_of first ≡ some hello)
    × (is_some (Routing.session daemon.routing hello.session) ≡ true)
    × (same_user (lookup hello.session daemon.users) peer ≡ false)
Reason ErrorCode.session_busy daemon peer first =
    (hello : Hello) × (hello_of first ≡ some hello)
    × (same_user (lookup hello.session daemon.users) peer ≡ true)
    × (is_connected daemon.registry hello.session ≡ true)

handshake-hello_of :
    (first : First) (hello : Hello) → handshake first ≡ inl hello → hello_of first ≡ some hello
unfolding handshake
handshake-hello_of First.timed_out hello h = absurd (ground arith)
handshake-hello_of First.unreadable hello h = absurd (ground arith)
handshake-hello_of First.closed hello h = absurd (ground arith)
handshake-hello_of (First.line none) hello h = absurd (ground arith)
handshake-hello_of (First.line (some (Incoming.bad_request id message))) hello h =
    absurd (ground arith)
handshake-hello_of (First.line (some (Incoming.ignored message))) hello h = absurd (ground arith)
handshake-hello_of (First.line (some (Incoming.message message))) hello h = ground arith

handshake-bad_request :
    (first : First) (code : ErrorCode)
    → handshake first ≡ inr (some code)
    → (code ≡ ErrorCode.bad_request) × (hello_of first ≡ none) × (says first ≡ true)
unfolding handshake
handshake-bad_request First.timed_out code h = ground arith
handshake-bad_request First.unreadable code h = absurd (ground arith)
handshake-bad_request First.closed code h = absurd (ground arith)
handshake-bad_request (First.line none) code h = absurd (ground arith)
handshake-bad_request (First.line (some (Incoming.bad_request id message))) code h = ground arith
handshake-bad_request (First.line (some (Incoming.ignored message))) code h = ground arith
handshake-bad_request (First.line (some (Incoming.message message))) code h = ground arith

some_of {ℓ} : {A : Type ℓ} (o : Option A) → is_some o ≡ true → (a : A) × (o ≡ some a)
some_of none h = absurd (ground arith)
some_of (some a) h = (a, refl)

the_user :
    (uid peer : Option ℕ) → same_user uid peer ≡ true → (u : ℕ) × (peer ≡ some u) × (uid ≡ some u)
the_user none peer h = absurd (ground arith)
the_user (some uid) none h = absurd (ground arith)
the_user (some uid) (some peer) h = (peer, refl, ground arith)

module _ {Channel : Type 0} (daemon : Daemon Channel) (peer : Option ℕ) (channel : Channel)
    (first : First) where
  abbrev pub refuse : ErrorCode → Answer Channel
  refuse code = Answer.refused code

  abbrev code_of : Answer Channel → ErrorCode
  code_of (Answer.refused code) = code
  code_of _ = ErrorCode.bad_request

  refused-Reason :
      (actual code : ErrorCode)
      → refuse actual ≡ refuse code
      → Reason actual daemon peer first
      → Reason code daemon peer first
  refused-Reason actual code same reason =
      subst (λ c. Reason c daemon peer first) (ap code_of same) reason

  claimed-Reason :
      (hello : Hello) (code : ErrorCode)
      → hello_of first ≡ some hello
      → same_user (lookup hello.session daemon.users) peer ≡ true
      → claimed daemon hello.session (claim daemon.registry hello.session channel)
        ≡ Answer.refused code
      → Reason code daemon peer first
  unfolding claim Reason
  claimed-Reason hello code e user h =
      elim (Bool-cases (is_connected daemon.registry hello.session)) [
        | inl taken ↦
            refused-Reason ErrorCode.session_busy code (ground arith) (hello, e, user, taken)
        | inr free ↦ absurd (ground arith)
      ]

  admit-Reason :
      (said : Hello ⊎ Option ErrorCode) (code : ErrorCode)
      → handshake first ≡ said
      → admit daemon peer channel said ≡ Answer.refused code
      → Reason code daemon peer first
  unfolding Reason
  admit-Reason (inr none) code e h = absurd (ground arith)
  admit-Reason (inr (some actual)) code e h =
      let (same, no_hello, said) = handshake-bad_request first actual e in
      refused-Reason ErrorCode.bad_request code (ground (arith, same)) (no_hello, said)
  admit-Reason (inl hello) code said h =
      let e = handshake-hello_of first hello said in
      elim (Bool-cases (hello.protocol == protocol_version)) [
        | inr other ↦
            refused-Reason ErrorCode.protocol_mismatch code (ground arith) (hello, e, other)
        | inl same ↦ elim (Option-cases (Routing.session daemon.routing hello.session)) [
          | inl missing ↦
              refused-Reason ErrorCode.unknown_session code (ground arith) (hello, e, same, missing)
          | inr (config, there) ↦
              elim (Bool-cases (same_user (lookup hello.session daemon.users) peer)) [
                | inr wrong ↦
                    refused-Reason ErrorCode.wrong_user code (ground arith)
                      (hello, e, ground arith, wrong)
                | inl user ↦ claimed-Reason hello code e user (ground arith)
              ]
        ]
      ]

  -- A newcomer who is refused is refused for the reason that the code says: the first line is not
  -- a hello, or none came in time; or the hello is one, but of another protocol; of this protocol, but for no
  -- session of the configuration; for a session of the configuration, but not as its user; as its
  -- user, but somebody is connected for it.
  pub greet-Reason :
      (code : ErrorCode)
      → greet daemon peer channel first ≡ Answer.refused code
      → Reason code daemon peer first
  unfolding greet
  greet-Reason code h = admit-Reason (handshake first) code refl h

  abbrev pub Welcomed : String → Registry Channel → Type 0
  Welcomed session registry =
      ((hello : Hello) × (hello_of first ≡ some hello)
        × (hello.session ≡ session)
        × (hello.protocol ≡ protocol_version))
      × ((config : SessionConfig) × (Routing.session daemon.routing session ≡ some config))
      × ((uid : ℕ) × (peer ≡ some uid) × (lookup session daemon.users ≡ some uid))
      × (is_connected daemon.registry session ≡ false)
      × (is_connected registry session ≡ true)

  claimed-Welcomed :
      (hello : Hello) (session : String) (w : Welcome) (registry : Registry Channel)
      → claimed daemon hello.session (claim daemon.registry hello.session channel)
        ≡ Answer.welcomed session w registry
      → (hello.session ≡ session)
        × (is_connected daemon.registry hello.session ≡ false)
        × (is_connected registry hello.session ≡ true)
  unfolding claim is_connected
  claimed-Welcomed hello session w registry h =
      elim (Bool-cases (is_connected daemon.registry hello.session)) [
        | inl taken ↦ absurd (ground arith)
        | inr free ↦ (
          ground arith,
          free,
          ground (
            arith,
            eq_refl hello.session,
            lookup-insert hello.session hello.session channel daemon.registry.inner,
          ),
        )
      ]

  admit-Welcomed :
      (said : Hello ⊎ Option ErrorCode) (session : String) (w : Welcome)
      (registry : Registry Channel)
      → handshake first ≡ said
      → admit daemon peer channel said ≡ Answer.welcomed session w registry
      → Welcomed session registry
  admit-Welcomed (inr none) session w registry e h = absurd (ground arith)
  admit-Welcomed (inr (some code)) session w registry e h = absurd (ground arith)
  admit-Welcomed (inl hello) session w registry e h =
      let c : (claimed daemon hello.session (claim daemon.registry hello.session channel)
          ≡ Answer.welcomed session w registry) =
        ground arith in
      let (same, free, taken) = claimed-Welcomed hello session w registry c in
      (
        (hello, handshake-hello_of first hello e, same, ground arith),
        subst (λ x. (config : SessionConfig) × (Routing.session daemon.routing x ≡ some config))
            same (some_of (Routing.session daemon.routing hello.session) (ground arith)),
        subst (λ x. (uid : ℕ) × (peer ≡ some uid) × (lookup x daemon.users ≡ some uid)) same
            (the_user (lookup hello.session daemon.users) peer (ground arith)),
        subst (λ x. is_connected daemon.registry x ≡ false) same free,
        subst (λ x. is_connected registry x ≡ true) same taken,
      )

  -- A newcomer who is welcomed sent a hello of this protocol for a session of the configuration,
  -- runs as the very user of that session, and nobody else was connected for it; the session is
  -- now taken.
  pub greet-Welcomed :
      (session : String) (w : Welcome) (registry : Registry Channel)
      → greet daemon peer channel first ≡ Answer.welcomed session w registry
      → Welcomed session registry
  unfolding greet
  greet-Welcomed session w registry h = admit-Welcomed (handshake first) session w registry refl h
