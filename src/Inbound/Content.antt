-- ===== src/Inbound/Content.antt =====
-- crates/siltad/src/content.rs: what a message holds. The fallback that `remove_plain_reply_fallback`
-- takes off a reply's text, and the mime type that is guessed from a name, are parameters, and so is
-- where the media lie.
use Prim.Native.String.{◌++◌}
use silta.Common.{ℕ, String, Bool, true, false, Option, none, some, str_eq, if◌then◌else◌}

-- how a message relates to another
pub data Relation : Type 0 where
  replacement : Relation
  reply : (event_id : String) → Relation
  thread : (root : String) → (in_reply_to : Option String) → (is_falling_back : Bool) → Relation
  other : Relation

pub record MediaContent (Source : Type 0) : Type 0 where
  pub body : String
  pub filename : Option String
  pub mimetype : Option String
  pub size : Option ℕ
  pub source : Source

pub data MessageType (Source : Type 0) : Type 0 where
  text : String → MessageType Source
  emote : String → MessageType Source
  image : MediaContent Source → MessageType Source
  file : MediaContent Source → MessageType Source
  audio : MediaContent Source → MessageType Source
  video : MediaContent Source → MessageType Source
  other_type : (msgtype : String) → MessageType Source

pub record Media (Source : Type 0) : Type 0 where
  pub name : String
  pub mime : String
  pub size : Option ℕ
  pub caption : String
  pub source : Source

pub data Body (Source : Type 0) : Type 0 where
  text_body : String → Body Source
  media_body : Media Source → Body Source
  edit : Body Source
  other_body : (msgtype : String) → Body Source

pub record Parsed (Source : Type 0) : Type 0 where
  pub in_reply_to : Option String
  pub thread : Option String
  pub body : Body Source

-- the relation's reading: what is quoted, the thread, and whether the text carries a fallback
abbrev pub related : Option Relation → Option String × Option String × Bool
related none = (none, none, false)
related (some Relation.replacement) = (none, none, false)
related (some (Relation.reply event_id)) = (some event_id, none, true)
related (some (Relation.thread root none falling)) = (none, some root, false)
related (some (Relation.thread root (some quoted) true)) = (none, some root, true)
related (some (Relation.thread root (some quoted) false)) = (some quoted, some root, true)
related (some Relation.other) = (none, none, false)

abbrev pub is_edit : Option Relation → Bool
is_edit (some Relation.replacement) = true
is_edit _ = false

abbrev pub strip : (String → String) → Bool → String → String
strip remove_fallback fallback body = if fallback then remove_fallback body else body

abbrev pub named : String → Option String → String × String
named body none = (body, "")
named body (some filename) = if str_eq filename body then (filename, "") else (filename, body)

abbrev pub or_stream : Option String → String
or_stream none = "application/octet-stream"
or_stream (some mime) = mime

abbrev pub mime_of : (String → Option String) → String → Option String → String
mime_of guess name none = or_stream (guess name)
mime_of guess name (some mime) = mime

module _ {Source : Type 0} (remove_fallback : String → String)
    (guess : String → Option String) where
  -- with a file name, the body is a caption when it differs from it; else it is the file name
  unfoldable pub media : MediaContent Source → Media Source
  media c =
      let (name, caption) = named c.body c.filename in
      record {
        name = name;
        mime = mime_of guess name c.mimetype;
        size = c.size;
        caption = caption;
        source = c.source;
      }

  abbrev pub body_of : Bool → MessageType Source → Body Source
  unfolding media
  body_of fallback (MessageType.text t) = Body.text_body (strip remove_fallback fallback t)
  body_of fallback (MessageType.emote t) =
      Body.text_body ("/me " ++ strip remove_fallback fallback t)
  body_of fallback (MessageType.image c) = Body.media_body (media c)
  body_of fallback (MessageType.file c) = Body.media_body (media c)
  body_of fallback (MessageType.audio c) = Body.media_body (media c)
  body_of fallback (MessageType.video c) = Body.media_body (media c)
  body_of fallback (MessageType.other_type msgtype) = Body.other_body msgtype

  unfoldable pub parse : Option Relation → MessageType Source → Parsed Source
  unfolding media
  parse relates_to msgtype =
      let (quoted, root, fallback) = related relates_to in
      if is_edit relates_to
      then (record { in_reply_to = none; thread = none; body = Body.edit })
      else (record { in_reply_to = quoted; thread = root; body = body_of fallback msgtype })
