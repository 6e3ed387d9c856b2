-- ===== src/Buffer/Blist/Rebuild/Encodes.antt =====
-- encode_base64 of buffer::list: the bytes of a list go, as text, behind those of another.
use replica_wbcache.Prelude.{
  ℕ, ◌+◌, ◌-◌, ◌*◌, ◌/◌, ◌^◌, ◌≤◌, ◌<◌, ◌≡◌, refl, sym, ap, ◌∙◌, some, List, [], ◌∷◌, ◌++◌, arith,
  ok, length, length-append, get_elem?, get_elem?-append_length, Result,
}
use replica_wbcache.Armor.{armor}
use replica_wbcache.Armor.Encode.{IsBytes}
use replica_wbcache.Armor.Rfc.{rfc_text, armor_line_break-rfc_text}
use replica_wbcache.Buffer.Store.{Error, Store, Raw, and_then, create, create_aligned}
use replica_wbcache.Buffer.Ptr.{ptr, ptr_of_length}
use replica_wbcache.Buffer.Ptr.Access.{Preserves}
use replica_wbcache.Buffer.Ptr.Write.{
  grown_store-Preserves, get_elem?-lt, written, written-Preserves,
}
use replica_wbcache.Buffer.Blist.{Blist}
use replica_wbcache.Buffer.Blist.Contents.{
  contents, contents_raws, IsList, keep-windows, keep-contents,
}
use replica_wbcache.Buffer.Blist.Rebuild.{c_str, encoded, encode_base64}
use replica_wbcache.Buffer.Blist.Rebuild.Creates.{Creates, CanAlign, create_aligned-Creates}
use replica_wbcache.Buffer.Blist.Rebuild.Reads.{early, Reads, c_str-Reads}
use replica_wbcache.Buffer.Blist.Rebuild.Puts.{
  encoded_room, text_fits, text_some, after_armor, after_text, after_c_str, after_room, put, joined,
  after_armor-ok, contents-joined,
}

-- A list whose bytes went, as text, behind those of another, and that keeps them itself
pub record Encodes (s : Store) (l waiting : Blist) (run : Result Error ((Blist × Blist) × Store))
    : Type 0 where
  pub l' : Blist
  pub w : Blist
  pub s' : Store
  pub runs : run ≡ ok ((l', w), s')
  pub text :
      contents s' w.buffers ≡ contents s waiting.buffers ++ rfc_text 0 0 (contents s l.buffers)
  pub kept : contents s' l'.buffers ≡ contents s l.buffers
  pub counted : w.len ≡ length (contents s' w.buffers)

module _ (s : Store) (l waiting : Blist) (well : IsList s l) (waits : IsList s waiting)
    (bytes_in : IsBytes (contents s l.buffers)) (more : 0 < l.len) (small : l.len * 4 < 2 ^ 64)
    (word : CanAlign s.allocator 8) (page : CanAlign s.allocator s.platform.page_size) where
  abbrev i : ℕ
  i = length s.raws

  abbrev room : ℕ
  room = l.len * 4 / 3 + 3

  abbrev xs : List ℕ
  xs = contents s l.buffers

  abbrev text : List ℕ
  text = rfc_text 0 0 xs

  born : Creates s room (create_aligned room 8 s)
  born = create_aligned-Creates s room 8 word

  abbrev s1 : Store
  s1 = record s { raws = s.raws ++ born.r ∷ [] }

  grows : Preserves i 0 s s1
  grows = grown_store-Preserves s born.r 0

  kept_here : contents s1 l.buffers ≡ xs
  kept_here =
      keep-contents grows l.buffers well.chain.windows
        (early s i l.buffers (omega arith) well.chain.windows)

  still_well : IsList s1 l
  still_well = record {
    chain = record {
      windows = keep-windows grows l.buffers well.chain.windows;
      fresh = well.chain.fresh;
      distinct = well.chain.distinct;
    };
    tail = well.tail;
    counted = well.counted ∙ ap length (sym kept_here);
    numbered = well.numbered;
  }

  source : Reads s1 l (c_str l s1)
  source = c_str-Reads s1 l still_well more (omega (arith, small)) word page l.buffers refl

  made : ptr_of_length room s ≡ ok (ptr i 0 room, s1)
  unfolding ptr_of_length create
  made = ap (λ a. and_then a (λ j. λ u. ok (ptr j 0 room, u))) born.runs

  -- Those that wait keep their bytes while the text is made.
  kept_waiting :
      (r : Raw)
      → get_elem? source.s'.raws i ≡ some r
      → 0 + length text ≤ length r.m_data
      → contents (written source.s' i r 0 text) waiting.buffers ≡ contents s waiting.buffers
  kept_waiting r holds fits =
      let ws = waits.chain.windows in
      let ws1 = keep-windows grows waiting.buffers ws in
      let at_i = early s i waiting.buffers (omega arith) ws in
      keep-contents (written-Preserves source.s' i r 0 text holds fits) waiting.buffers
        (keep-windows source.kept waiting.buffers ws1) at_i
      ∙ keep-contents source.kept waiting.buffers ws1
          (early s1 (length s1.raws) waiting.buffers (omega arith) ws1)
      ∙ keep-contents grows waiting.buffers ws at_i

  kept_source :
      (r : Raw) (holds : get_elem? source.s'.raws i ≡ some r)
      → 0 + length text ≤ length r.m_data
      → contents (written source.s' i r 0 text) source.l'.buffers ≡ xs
  kept_source r holds fits =
      keep-contents (written-Preserves source.s' i r 0 text holds fits) source.l'.buffers
        source.windows
        (source.away i (get_elem?-lt s1.raws i (get_elem?-append_length s.raws born.r))
          (early s i l.buffers (omega arith) well.chain.windows))
      ∙ source.still
      ∙ kept_here

  -- On a well-formed list of bytes that is not empty and whose length times 4 is below 2^64,
  -- encode_base64 succeeds, puts the text of RFC 4648, without line breaks, of the list's bytes
  -- behind the bytes of another well-formed list and counts it, and keeps the list's bytes, if
  -- `posix_memalign` succeeds at the alignments of a word and of a page and the constructor of
  -- raw_posix_aligned accepts the page's size.
  pub encode_base64-Encodes : Encodes s l waiting (encode_base64 l waiting s)
  unfolding encode_base64 armor
  encode_base64-Encodes =
      let (r, holds, same, _) =
        source.kept.keeps i born.r (get_elem?-append_length s.raws born.r) in
      let size = well.counted in
      let fits = text_fits xs bytes_in l.len size more small in
      let inside : 0 + length text ≤ length r.m_data = omega (arith, same, born.size, fits) in
      let is_room : length r.m_data ≡ room = same ∙ born.size in
      let some_text = text_some xs bytes_in l.len size more small in
      let s2 = source.s' in
      let held =
        contents-joined s2 i r holds text room is_room fits some_text waiting
          (contents s waiting.buffers) (kept_waiting r holds inside) in
      record {
        l' = source.l';
        w = joined s2 i r holds text room is_room fits some_text waiting;
        s' = put s2 i r holds text room is_room fits some_text waiting;
        runs =
            ap (λ n. and_then (ptr_of_length n s) (after_room l waiting))
              (encoded_room xs bytes_in l.len size more small)
            ∙ ap (λ a. and_then a (after_room l waiting)) made
            ∙ ap (λ a. and_then a (after_c_str waiting (ptr i 0 room))) source.runs
            ∙ ap (λ a. and_then a (after_text waiting source.l' (ptr i 0 room)))
                (source.reads ∙ ap (λ ys. ok (ys, s2)) kept_here)
            ∙ ap (λ a. and_then (encoded a s2) (after_armor waiting source.l' (ptr i 0 room)))
                (armor_line_break-rfc_text room 0 xs bytes_in fits)
            ∙ after_armor-ok s2 i r holds text room is_room fits some_text waiting source.l'
                (record { written = text; room = room - length text }) refl;
        text = held;
        kept =
            contents_raws (written s2 i r 0 text)
              (put s2 i r holds text room is_room fits some_text waiting) refl source.l'.buffers
            ∙ kept_source r holds inside;
        counted =
            omega (
              arith,
              waits.counted,
              ap length held,
              length-append (contents s waiting.buffers) text,
            );
      }
