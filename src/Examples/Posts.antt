-- ===== src/Examples/Posts.antt =====
-- The theorem on a session's commands, at a room where the session may post.
use silta.Common.{true, false, none, some, [], ◌∷◌, String, ◌⊎◌, inl}
use silta.Protocol.Commands.{Reply, React, Edit, Typing}
use silta.Outbound.Matrix.{Matrix, Kind, RoomView, ReplyConfig, ReplyError, Fetched}
use silta.Outbound.Sending.{Trouble}
use silta.Outbound.Commands.{do_reply, do_react, do_edit, do_typing}
use silta.Outbound.Permitted.{Kept, commands-Kept}
use silta.Examples.Connections.{shared}

abbrev view : RoomView
view = record {
  joined = true;
  members = some ("@bot:example.org" ∷ "@alice:example.org" ∷ []);
  shape = record { direct = true; named = false };
}

abbrev own_message : Fetched
own_message = record { sender = some "@bot:example.org"; kind = Kind.original_message }

abbrev keep_content : String → ReplyConfig → String ⊎ ReplyError
keep_content content config = inl content

abbrev pub matrix : Matrix Unit String
matrix = record {
  is_room_id = λ room. true;
  is_event_id = λ event. true;
  get_room = λ world room. some view;
  text_markdown = λ text. text;
  annotation = λ event emoji. emoji;
  replacement = λ event text. text;
  make_reply_event = λ world room content config. keep_content content config;
  in_thread = λ content. false;
  send = λ world room content. (tt, some "$sent");
  load_or_fetch_event = λ world room event. some own_message;
  typing_notice = λ world room on. tt;
  now = λ world. 40;
}

abbrev pub say : Trouble → String
say trouble = "trouble"

abbrev reply : Reply
reply = record { room_id = "!room"; text = "hello"; reply_to = none; thread = none; more = false }

abbrev react : React
react = record { room_id = "!room"; event_id = "$1"; emoji = "+"; more = true }

abbrev edit : Edit
edit = record { room_id = "!room"; event_id = "$2"; text = "hello again"; more = false }

abbrev typing : Typing
typing = record { room_id = "!room" }

commands-Kept_example :
    Kept matrix say shared "bot" "!room" (do_reply matrix say shared "bot" reply)
    × Kept matrix say shared "bot" "!room" (do_react matrix say shared "bot" react)
    × Kept matrix say shared "bot" "!room" (do_edit matrix say shared "bot" edit)
    × Kept matrix say shared "bot" "!room" (do_typing matrix say shared "bot" typing)
commands-Kept_example = commands-Kept matrix say shared "bot" reply react edit typing
