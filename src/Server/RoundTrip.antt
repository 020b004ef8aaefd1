-- ===== src/Server/RoundTrip.antt =====
-- What one side sends of a file is what the other has on its disk.
use silta.Common.{
  ℕ, zero, suc, ◌+◌, ◌≤◌, ◌<◌, ◌^◌, ◌≡◌, refl, sym, ap, ap₂, ◌∙◌, ◌⊎◌, ◌-◌, true, false, Option,
  none, some, List, [], ◌∷◌, ◌++◌, String, length, length-append, ltb, ◌==◌, All, All-split, arith,
  inl, inr,
}
use silta.Common.Assoc.{lookup, lookup-insert_own, lookup-remove}
use mathlib.Core.Path.{subst}
use text.Mathlib.TextPositions.{eq_refl}
use silta.Protocol.{FileHeader, FileChunk, FileEnd}
use silta.Transfer.Disk.{Disk, content, open_truncate, write}
use silta.Transfer.Receiver.{Received, begin, chunk, end, path_for, count_in}
use silta.Transfer.Send.{Piece, send, chunks, chunk_then, piece_of, chunk_bytes, read_chunk, concat}
use silta.Transfer.Reading.{
  NonEmpty, read_chunk-concat, read_chunk-All, read_chunk-NonEmpty, append_assoc, append_nil,
}
use silta.Transfer.Writes.{opened-start}
use silta.Transfer.Contents.{IsWhole, at-set_at, length-set_at, overwrite-end, opened-empty}
use silta.Server.Connection.{Files, on_file, on_chunk, on_file_end}
use silta.Server.Files.{take_piece, take_pieces, take_pieces-append, Going}

abbrev pub IsByte : ℕ → Type 0
IsByte b = b < 256

abbrev arrived : FileHeader → String → Option Received
arrived head path = some (record { header = head; path = path })

module _ (extension : String → Option String) (decode : String → Option (List ℕ)) where
  file-Going :
      (f : Files) (d : Disk) (head : FileHeader)
      → lookup head.transfer f.receiver.in_progress ≡ none
      → head.size ≤ f.receiver.max_bytes
      → IsWhole d
      → let (f', d') = take_piece extension decode f d (Piece.header head) in
        Going head (path_for extension decode f.receiver.prefix head) [] f' d'
  unfolding take_piece on_file begin open_truncate
  file-Going f d head free small whole =
      let path = path_for extension decode f.receiver.prefix head in
      let (named, there, empty) = opened-empty path d (lookup path d.names) whole refl in
      let within : (ltb f.receiver.max_bytes head.size ≡ false) = ground arith in
      rw free (
        rw within (record {
          at = _;
          found = lookup-insert_own head.transfer _ f.receiver.in_progress;
          header = refl;
          path_is = refl;
          received = refl;
          position = opened-start path d (lookup path d.names);
          named = named;
          there = there;
          written = empty;
        }))

  chunk-Going :
      (f : Files) (d : Disk) (head : FileHeader) (path : String) (done : List ℕ)
      (data_base64 : String) (bytes : List ℕ)
      → Going head path done f d
      → decode data_base64 ≡ some bytes
      → length done + length bytes ≤ head.size
      → head.size < 2 ^ 64
      → let c : FileChunk = record { transfer = head.transfer; data_base64 = data_base64 } in
        let (f', d') = take_piece extension decode f d (Piece.chunk c) in
        Going head path (done ++ bytes) f' d'
  unfolding take_piece on_chunk chunk write
  chunk-Going f d head path done data_base64 bytes g e small native =
      let counted : (count_in g.at.received bytes ≡ length (done ++ bytes)) =
        omega (arith, g.received, small, native, length-append done bytes) in
      let declared : (ltb g.at.header.size (count_in g.at.received bytes) ≡ false) =
        rw counted (rw g.header (ground (arith, length-append done bytes))) in
      rw g.found (
        rw e (
          rw declared (record {
            at = _;
            found = lookup-insert_own head.transfer _ f.receiver.in_progress;
            header = g.header;
            path_is = g.path_is;
            received = counted;
            position = omega (arith, g.position, length-append done bytes);
            named = g.named;
            there = omega (arith, g.there, length-set_at g.at.file.file _ d.files);
            written =
                at-set_at g.at.file.file _ d.files g.there
                ∙ rw g.written (rw g.position (overwrite-end done bytes));
          })))

  end-whole :
      (f : Files) (d : Disk) (head : FileHeader) (path : String) (bytes : List ℕ)
      → Going head path bytes f d
      → length bytes ≡ head.size
      → let e : FileEnd = record { transfer = head.transfer } in
        let (f', d') = take_piece extension decode f d (Piece.end e) in
        (lookup head.transfer f'.received ≡ some (record { header = head; path = path }))
        × (content path d' ≡ some bytes)
        × (lookup head.transfer f'.receiver.in_progress ≡ none)
  unfolding take_piece on_file_end end content
  end-whole f d head path bytes g whole =
      let all : ((g.at.received == g.at.header.size) ≡ true) =
        rw g.header (rw g.received (ground arith)) in
      rw g.found (
        rw all (
          lookup-insert_own head.transfer _ f.received ∙ ap₂ arrived g.header g.path_is,
          rw g.named (ap (λ (l : List ℕ). some l) g.written),
          ground (
            arith,
            eq_refl head.transfer,
            lookup-remove head.transfer head.transfer f.receiver.in_progress,
          ),
        ))

module _ (extension : String → Option String) (decode : String → Option (List ℕ))
    (encode : List ℕ → String)
    (decodes : (bytes : List ℕ) → All IsByte bytes → decode (encode bytes) ≡ some bytes) where
  -- the rounds of the loop carry over what is left of a file, given so much fuel
  abbrev Carries : FileHeader → String → ℕ → Type 0
  Carries head path fuel =
      (file : List (List ℕ)) (f : Files) (d : Disk) (done : List ℕ)
      → length (concat file) < fuel
      → All NonEmpty file
      → All IsByte (concat file)
      → Going head path done f d
      → length done + length (concat file) ≤ head.size
      → let (f', d') = take_pieces extension decode f d (chunks encode fuel head.transfer file) in
        Going head path (done ++ concat file) f' d'

  round-Going :
      (fuel : ℕ) (head : FileHeader) (path : String) (content bytes : List ℕ) (left : List (List ℕ))
      (f : Files) (d : Disk) (done : List ℕ)
      → head.size < 2 ^ 64
      → Carries head path fuel
      → bytes ++ concat left ≡ content
      → All NonEmpty left
      → All IsByte content
      → (content ≡ []) ⊎ NonEmpty bytes
      → length content < suc fuel
      → Going head path done f d
      → length done + length content ≤ head.size
      → let later = chunks encode fuel head.transfer left in
        let (f', d') =
          take_pieces extension decode f d (chunk_then encode head.transfer bytes later) in
        Going head path (done ++ content) f' d'
  unfolding take_pieces
  round-Going fuel head path content [] left f d done native rec e all octets (inl over) enough g
        small =
      rw over (rw (append_nil done) g)
  round-Going fuel head path content [] left f d done native rec e all octets (inr more) enough g
        small =
      absurd (omega (arith, more))
  round-Going fuel head path content (b ∷ bytes) left f d done native rec e all octets more enough g
        small =
      let (f', d') = take_piece extension decode f d (piece_of encode head.transfer (b ∷ bytes)) in
      let both =
        All-split IsByte (b ∷ bytes) (concat left) (subst (λ l. All IsByte l) (sym e) octets) in
      let long : (length (b ∷ bytes) + length (concat left) ≡ length content) =
        sym (length-append (b ∷ bytes) (concat left)) ∙ ap (λ l. length l) e in
      let here : (Going head path (done ++ (b ∷ bytes)) f' d') =
        chunk-Going extension decode f d head path done (encode (b ∷ bytes)) (b ∷ bytes) g
          (decodes (b ∷ bytes) both.0) (omega (arith, long, small)) native in
      subst
        (λ l.
          let (f'', d'') =
            take_pieces extension decode f' d' (chunks encode fuel head.transfer left) in
          Going head path l f'' d'')
        (append_assoc done (b ∷ bytes) (concat left) ∙ ap (λ l. done ++ l) e)
        (rec left f' d' (done ++ (b ∷ bytes)) (omega (arith, long, enough)) all both.1 here
          (omega (arith, long, small, length-append done (b ∷ bytes))))

  chunks-Going :
      (head : FileHeader) (path : String) (fuel : ℕ) → head.size < 2 ^ 64 → Carries head path fuel
  unfolding chunks take_pieces
  chunks-Going head path zero native file f d done enough full octets g small =
      absurd (omega (arith, enough))
  chunks-Going head path (suc fuel) native file f d done enough full octets g small =
      let (bytes, left) = read_chunk chunk_bytes file in
      round-Going fuel head path (concat file) bytes left f d done native
        (chunks-Going head path fuel native) (read_chunk-concat chunk_bytes file)
        (read_chunk-All chunk_bytes file full) octets
        (read_chunk-NonEmpty (chunk_bytes - 1) file full) enough g small

  -- What one side sends of a file, in whatever pieces its reads of it come, is what the other has
  -- under the transfer's path once all of it came, and it then stands ready for the command that
  -- names the transfer; nothing of it is still in progress. The transfer is not open before, its
  -- declared size is the file's, within the cap and a `u64`, the file system does not fail, every
  -- name on the disk is that of a file, and decoding undoes the encoding of bytes.
  pub take_pieces-send :
      (head : FileHeader) (file : List (List ℕ)) (f : Files) (d : Disk)
      → All NonEmpty file
      → All IsByte (concat file)
      → head.size ≡ length (concat file)
      → head.size ≤ f.receiver.max_bytes
      → head.size < 2 ^ 64
      → lookup head.transfer f.receiver.in_progress ≡ none
      → IsWhole d
      → let path = path_for extension decode f.receiver.prefix head in
        let (f', d') = take_pieces extension decode f d (send encode head file) in
        (lookup head.transfer f'.received ≡ some (record { header = head; path = path }))
        × (content path d' ≡ some (concat file))
        × (lookup head.transfer f'.receiver.in_progress ≡ none)
  unfolding send take_pieces
  take_pieces-send head file f d full octets size small native free whole =
      let path = path_for extension decode f.receiver.prefix head in
      let (f₁, d₁) = take_piece extension decode f d (Piece.header head) in
      let body = chunks encode (suc (length (concat file))) head.transfer file in
      let last = Piece.end (record { transfer = head.transfer }) ∷ [] in
      let (f₂, d₂) = take_pieces extension decode f₁ d₁ body in
      let going : (Going head path (concat file) f₂ d₂) =
        chunks-Going head path (suc (length (concat file))) native file f₁ d₁ [] (omega arith) full
          octets (file-Going extension decode f d head free small whole) (omega (arith, size)) in
      rw (take_pieces-append extension decode body last f₁ d₁)
        (end-whole extension decode f₂ d₂ head path (concat file) going (sym size))
