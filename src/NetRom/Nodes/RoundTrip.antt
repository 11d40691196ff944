-- ===== src/NetRom/Nodes/RoundTrip.antt =====
-- netrom/nodes-broadcast.ts, netrom/nodes-broadcast-builder.ts: a table that is sent is read back.
use mathlib.Core.List.{flatten}
use ax25_ts.Base.{
  All, All-drop, All-take, List, [], ap, append_assoc, ap₂, arith, drop, drop-length-append, false,
  get_or, get_or-append, length, length-append, length-drop, length-take, ltb, map, min, not, refl,
  some, suc, sym, take, take-append, take-append-drop, true, zero, ℕ, ◌%◌, ◌&&◌, ◌*◌, ◌++◌, ◌+◌,
  ◌-◌, ◌/◌, ◌<◌, ◌==◌, ◌∙◌, ◌∷◌, ◌≡◌, ◌≤◌,
}
use ax25_ts.Callsign.{IsValid}
use ax25_ts.NetRom.Alias.{
  IsTrimmed, length-alias_octets, netrom_alias_length, read_alias, trim-alias_octets, write_alias,
}
use ax25_ts.NetRom.ConnectInfo.{write_shifted}
use ax25_ts.NetRom.Nodes.{
  NetRomParseOptions, NodesBroadcast, NodesRoutingEntry, build_frame, build_frames,
  build_nodes_broadcast, frame_count, nodes_entry_encoded_length, nodes_header_length,
  nodes_signature, parse_entries, parse_entry, parse_nodes_broadcast, with_entry, write_entries,
  write_entry,
}
use ax25_ts.NetRom.Packet.{and_then_some, shifted_length}
use ax25_ts.NetRom.Packet.RoundTrip.{length-write_shifted, read_shifted_at}

-- An alias that fits its six octets.
pub record IsAlias (alias : List ℕ) : Type 0 where
  pub short : length alias ≤ 6
  pub trimmed : IsTrimmed alias

pub record FitsEntry (e : NodesRoutingEntry) : Type 0 where
  pub destination : IsValid e.destination
  pub destination_alias : IsAlias e.destination_alias
  pub best_neighbour : IsValid e.best_neighbour
  pub best_quality : e.best_quality < 256

read_alias_at :
    (source : List ℕ) (offset : ℕ) (front back alias : List ℕ)
    → source ≡ front ++ (write_alias alias ++ back)
    → offset ≡ length front
    → IsAlias alias
    → read_alias source offset ≡ alias
unfolding read_alias
read_alias_at source offset front back alias e o a =
    let six = length-alias_octets 6 alias in
    let room : ltb (length source) (offset + 6) ≡ false = ground (
      arith,
      ap length e,
      length-append front (write_alias alias ++ back),
      length-append (write_alias alias) back,
    ) in
    let after : drop offset source ≡ write_alias alias ++ back =
      ap₂ drop o e ∙ drop-length-append front (write_alias alias ++ back) in
    let taken : take 6 (write_alias alias ++ back) ≡ write_alias alias =
      take-append (write_alias alias) back 6 (sym six) in
    rw (room, after, taken) (trim-alias_octets 6 alias (a.trimmed).0 a.short ∙ (a.trimmed).1)

length-write_entry : (e : NodesRoutingEntry) → length (write_entry e) ≡ 21
unfolding write_entry
length-write_entry e = omega (
  arith,
  length-append (write_shifted e.destination) (
      write_alias e.destination_alias
      ++ (write_shifted e.best_neighbour ++ ((e.best_quality % 256) ∷ []))),
  length-append (write_alias e.destination_alias)
      (write_shifted e.best_neighbour ++ ((e.best_quality % 256) ∷ [])),
  length-append (write_shifted e.best_neighbour) ((e.best_quality % 256) ∷ []),
  length-write_shifted e.destination,
  length-write_shifted e.best_neighbour,
  length-alias_octets 6 e.destination_alias,
)

parse_entry-write_entry :
    (source : List ℕ) (offset : ℕ) (front back : List ℕ) (e : NodesRoutingEntry)
    → source ≡ front ++ (write_entry e ++ back)
    → offset ≡ length front
    → FitsEntry e
    → parse_entry source offset ≡ some e
unfolding parse_entry write_entry and_then_some
parse_entry-write_entry source offset front back e s o f =
    let dest = write_shifted e.destination in
    let alias = write_alias e.destination_alias in
    let near = write_shifted e.best_neighbour in
    let tail = (e.best_quality % 256) ∷ back in
    let seven = length-write_shifted e.destination in
    let six = length-alias_octets 6 e.destination_alias in
    let more = length-write_shifted e.best_neighbour in
    let size = ap length s ∙ length-append front (write_entry e ++ back) in
    let own = length-append (write_entry e) back in
    let entry = length-write_entry e in
    let room : ltb (length source) (offset + 21) ≡ false = ground (arith, size, own, entry) in
    let at7 = offset + shifted_length in
    let at13 = offset + shifted_length + netrom_alias_length in
    let at20 = offset + shifted_length + netrom_alias_length + shifted_length in
    let s1 : source ≡ front ++ (dest ++ (alias ++ (near ++ tail))) = s ∙ simp (append_assoc) in
    let s2 : source ≡ (front ++ dest) ++ (alias ++ (near ++ tail)) =
      s1 ∙ sym (append_assoc front dest _) in
    let s3 : source ≡ ((front ++ dest) ++ alias) ++ (near ++ tail) =
      s2 ∙ sym (append_assoc (front ++ dest) alias _) in
    let s4 : source ≡ (((front ++ dest) ++ alias) ++ near) ++ tail =
      s3 ∙ sym (append_assoc ((front ++ dest) ++ alias) near _) in
    let l2 : at7 ≡ length (front ++ dest) = omega (arith, o, length-append front dest, seven) in
    let l3 : at13 ≡ length ((front ++ dest) ++ alias) =
      omega (arith, l2, length-append (front ++ dest) alias, six) in
    let l4 : at20 ≡ length (((front ++ dest) ++ alias) ++ near) + 0 =
      omega (arith, l3, length-append ((front ++ dest) ++ alias) near, more) in
    let last : e.best_quality % 256 ≡ e.best_quality = omega (arith, f.best_quality) in
    let quality : get_or source at20 0 ≡ e.best_quality =
      ap (λ x. get_or x at20 0) s4
      ∙ (get_or-append (((front ++ dest) ++ alias) ++ near) tail at20 0 0 l4 ∙ last) in
    rw
      (
        room,
        read_shifted_at source offset front (alias ++ (near ++ tail)) e.destination s1 o
            f.destination,
        read_shifted_at source at13 ((front ++ dest) ++ alias) tail e.best_neighbour s3 l3
            f.best_neighbour,
        read_alias_at source at7 (front ++ dest) (near ++ tail) e.destination_alias s2 l2
            f.destination_alias,
        quality,
      )
      refl

length-write_entries : (es : List NodesRoutingEntry) → length (write_entries es) ≡ 21 * length es
unfolding write_entries
length-write_entries [] = omega arith
length-write_entries (e ∷ es) = omega (
  arith,
  length-append (write_entry e) (write_entries es),
  length-write_entry e,
  length-write_entries es,
)

parse_entries-write_entries :
    (options : NetRomParseOptions) (es : List NodesRoutingEntry) (info : List ℕ) (offset : ℕ)
    (front : List ℕ)
    → info ≡ front ++ write_entries es
    → offset ≡ length front
    → All FitsEntry es
    → parse_entries options (length es) info offset ≡ some es
unfolding parse_entries write_entries with_entry
parse_entries-write_entries options [] info offset front s o f = refl
parse_entries-write_entries options (e ∷ es) info offset front s o f =
    let later : offset + nodes_entry_encoded_length ≡ length (front ++ write_entry e) =
      omega (arith, o, length-append front (write_entry e), length-write_entry e) in
    rw
      (
        parse_entry-write_entry info offset front (write_entries es) e s o f.0,
        parse_entries-write_entries options es info (offset + nodes_entry_encoded_length)
            (front ++ write_entry e) (s ∙ sym (append_assoc front (write_entry e) _)) later f.1,
      )
      refl

parse-build_frame :
    (options : NetRomParseOptions) (alias : List ℕ) (es : List NodesRoutingEntry)
    → options.allow_empty_destination_list ≡ true
    → IsAlias alias
    → length es ≤ 11
    → All FitsEntry es
    → parse_nodes_broadcast (build_frame alias es) options
      ≡ some (record { sender_alias = alias; entries = es })
unfolding parse_nodes_broadcast build_frame and_then_some
parse-build_frame options alias es a v h f =
    let info = nodes_signature ∷ (write_alias alias ++ write_entries es) in
    let front = nodes_signature ∷ write_alias alias in
    let size : length info ≡ 7 + 21 * length es = omega (
      arith,
      length-append (write_alias alias) (write_entries es),
      length-alias_octets 6 alias,
      length-write_entries es,
    ) in
    let long : ltb (length info) 7 ≡ false = ground (arith, size) in
    let count : (length info - 7) / 21 ≡ length es = omega (arith, size) in
    let no_rest : (length info - 7 - length es * 21 == 0) ≡ true = ground (arith, size) in
    let few : min (length es) 11 ≡ length es = omega (arith, h) in
    let allowed : (length es == 0 && not options.allow_empty_destination_list) ≡ false =
      ground (arith, a) in
    let entries_read : parse_entries options (length es) (build_frame alias es) nodes_header_length
        ≡ some es =
      parse_entries-write_entries options es info 7 front refl
        (omega (arith, length-alias_octets 6 alias)) f in
    let alias_read : read_alias (build_frame alias es) 1 ≡ alias =
      read_alias_at info 1 (nodes_signature ∷ []) (write_entries es) alias refl refl v in
    rw (long, count, no_rest, few, allowed, entries_read, alias_read) refl

-- What the frames of a table are read as, one broadcast for each.
abbrev pub AreRead : List ℕ → NetRomParseOptions → List (List ℕ) → List NodesBroadcast → Type 0
AreRead alias options [] [] = Unit {0}
AreRead alias options [] (b ∷ bs) = ⊥
AreRead alias options (f ∷ fs) [] = ⊥
AreRead alias options (f ∷ fs) (b ∷ bs) =
    ((parse_nodes_broadcast f options ≡ some b)
      × ((b.sender_alias ≡ alias) × (length b.entries ≤ 11)))
    × AreRead alias options fs bs

build_frames-AreRead :
    (alias : List ℕ) (options : NetRomParseOptions) (n : ℕ) (es : List NodesRoutingEntry)
    → options.allow_empty_destination_list ≡ true
    → IsAlias alias
    → All FitsEntry es
    → length es ≤ 11 * n
    → (bs : List NodesBroadcast) × (AreRead alias options (build_frames alias n es) bs
        × (flatten (map (λ b. b.entries) bs) ≡ es))
unfolding build_frames flatten
build_frames-AreRead alias options zero [] a v f h = ([], (tt, refl))
build_frames-AreRead alias options zero (e ∷ es) a v f h = absurd (omega arith)
build_frames-AreRead alias options (suc n) es a v f h =
    let part = take 11 es in
    let size = length-take 11 es in
    let (bs, (read, joined)) =
      build_frames-AreRead alias options n (drop 11 es) a v (All-drop FitsEntry 11 es f)
        (omega (arith, length-drop 11 es)) in
    let one =
      parse-build_frame options alias part a v (omega (arith, size)) (All-take FitsEntry 11 es f) in
    (
      record { sender_alias = alias; entries = part } ∷ bs,
      (
        ((one, (refl, omega (arith, size))), read),
        ap (λ x. part ++ x) joined ∙ take-append-drop 11 es,
      ),
    )

frame_count-enough : (es : List NodesRoutingEntry) → length es ≤ 11 * frame_count es
unfolding frame_count
frame_count-enough [] = omega arith
frame_count-enough (e ∷ es) = omega arith

-- A table that is broadcast under an alias, where the aliases have at most six printable characters
-- and no blank at the end, the callsigns are valid and the qualities are octets: every frame is read
-- back, under options that allow an empty list, as a broadcast of that alias with at most eleven
-- entries, and the entries of the broadcasts, one after another, are those of the table.
pub parse-build_nodes_broadcast :
    (alias : List ℕ) (options : NetRomParseOptions) (es : List NodesRoutingEntry)
    → options.allow_empty_destination_list ≡ true
    → IsAlias alias
    → All FitsEntry es
    → (bs : List NodesBroadcast) × (AreRead alias options (build_nodes_broadcast alias es) bs
        × (flatten (map (λ b. b.entries) bs) ≡ es))
unfolding build_nodes_broadcast
parse-build_nodes_broadcast alias options es a v f =
    build_frames-AreRead alias options (frame_count es) es a v f (frame_count-enough es)
