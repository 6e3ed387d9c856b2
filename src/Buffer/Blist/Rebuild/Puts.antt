-- ===== src/Buffer/Blist/Rebuild/Puts.antt =====
-- encode_base64 of buffer::list, once the text is made: it goes behind another list.
use replica_wbcache.Prelude.{
  ℕ, suc, ◌+◌, ◌*◌, ◌/◌, ◌^◌, ◌≤◌, ◌<◌, ◌≡◌, refl, sym, ap, ◌∙◌, none, some, List, [], ◌∷◌, ◌++◌,
  arith, ok, true, false, leb, ◌==◌, length, get_elem?,
}
use replica_wbcache.Intarith.{u64}
use replica_wbcache.Intarith.Rounding.{u64-own}
use replica_wbcache.Armor.{Dst, Encoded, armor}
use replica_wbcache.Armor.Encode.{IsBytes, length-text}
use replica_wbcache.Armor.Rfc.{rfc_text, text-rfc_text}
use replica_wbcache.Buffer.Store.{
  Store, Raw, M, ◌>>=◌, ◌>>◌, and_then, pure, store_bytes, overwrite,
}
use replica_wbcache.Buffer.Ptr.{Ptr, ptr, null_ptr, raw_id, raw_length, set_length}
use replica_wbcache.Buffer.Ptr.Access.{bytes}
use replica_wbcache.Buffer.Ptr.Write.{
  found-raw_at, written, written-holds, store_bytes-ok, slice-overwrite, length-overwrite,
}
use replica_wbcache.Buffer.Blist.{Blist, new_node, push_back_move}
use replica_wbcache.Buffer.Blist.Contents.{contents, contents-snoc, contents_raws}
use replica_wbcache.Buffer.Blist.Rebuild.{c_str, text_of, encoded}

-- The room for the text
module _ (xs : List ℕ) (bytes_in : IsBytes xs) (len : ℕ) (size : len ≡ length xs) (more : 0 < len)
    (small : len * 4 < 2 ^ 64) where
  length-rfc_text : length (rfc_text 0 0 xs) ≡ (len + 2) / 3 * 4
  length-rfc_text =
      sym (ap length (text-rfc_text 0 0 xs bytes_in))
      ∙ length-text 0 xs
      ∙ ap (λ (k : ℕ). (k + 2) / 3 * 4) (sym size)

  -- The size is what encode_base64 asks for: it does not wrap.
  pub encoded_room : u64 (u64 (len * 4) / 3 + 3) ≡ len * 4 / 3 + 3
  encoded_room =
      ap (λ (k : ℕ). u64 (k / 3 + 3)) (u64-own (len * 4) small)
      ∙ u64-own (len * 4 / 3 + 3) (omega (arith, small))

  pub text_fits : length (rfc_text 0 0 xs) ≤ len * 4 / 3 + 3
  text_fits = omega (arith, length-rfc_text)

  pub text_some : 0 < length (rfc_text 0 0 xs)
  text_some = omega (arith, length-rfc_text, more)

-- encode_base64 in steps
abbrev pub after_push : Blist → Blist × Ptr → M (Blist × Blist)
after_push l' (w, moved) = pure (l', w)

abbrev pub after_length : Blist → Blist → Ptr → M (Blist × Blist)
after_length waiting l' p = push_back_move waiting p >>= after_push l'

abbrev pub after_store : Blist → Blist → Ptr → ℕ → M (Blist × Blist)
after_store waiting l' p len = set_length p len >>= after_length waiting l'

abbrev pub after_armor : Blist → Blist → Ptr → Encoded → M (Blist × Blist)
after_armor waiting l' p (dst, len) = do
  i ← raw_id p
  store_bytes i 0 dst.written
  after_store waiting l' p len

abbrev pub after_text : Blist → Blist → Ptr → List ℕ → M (Blist × Blist)
after_text waiting l' p src = encoded (armor p.m_len src) >>= after_armor waiting l' p

abbrev pub after_c_str : Blist → Ptr → Blist × Ptr → M (Blist × Blist)
after_c_str waiting p (l', q) = text_of l' q >>= after_text waiting l' p

abbrev pub after_room : Blist → Blist → Ptr → M (Blist × Blist)
after_room l waiting p = c_str l >>= after_c_str waiting p

-- The text goes into raw buffer `i`, and a node with it behind those that wait.
module _ (s : Store) (i : ℕ) (r : Raw) (holds : get_elem? s.raws i ≡ some r) (text : List ℕ)
    (room : ℕ) (is_room : length r.m_data ≡ room) (fits : length text ≤ room)
    (more : 0 < length text) (waiting : Blist) where
  abbrev pub put : Store
  put = record (written s i r 0 text) { next_node = suc s.next_node }

  abbrev pub joined : Blist
  joined = record {
    buffers = waiting.buffers ++ record { id = s.next_node; bptr = ptr i 0 (length text) } ∷ [];
    cache = none;
    len = waiting.len + length text;
    num = waiting.num + 1;
  }

  set_length-ok :
      set_length (ptr i 0 room) (length text) (written s i r 0 text)
      ≡ ok (ptr i 0 (length text), written s i r 0 text)
  unfolding set_length raw_length raw_id
  set_length-ok =
      let size = length-overwrite 0 text r.m_data (omega (arith, is_room, fits)) in
      let enough : leb (length text) (length (overwrite 0 text r.m_data)) ≡ true =
        ground (arith, size, is_room, fits) in
      rw
        (
          found-raw_at (written s i r 0 text) i
              (written-holds s i r 0 text holds (omega (arith, is_room, fits))),
          enough,
        )
        refl

  push_back_move-ok :
      push_back_move waiting (ptr i 0 (length text)) (written s i r 0 text)
      ≡ ok ((joined, null_ptr), put)
  unfolding push_back_move new_node
  push_back_move-ok =
      let filled : (length text == 0) ≡ false = ground (arith, more) in rw filled refl

  pub after_armor-ok :
      (l' : Blist) (d : Dst)
      → d.written ≡ text
      → after_armor waiting l' (ptr i 0 room) (d, length text) s ≡ ok ((l', joined), put)
  unfolding raw_id
  after_armor-ok l' d e =
      let next = after_store waiting l' (ptr i 0 room) (length text) in
      ap (λ xs. and_then (store_bytes i 0 xs s) (λ _. next)) e
      ∙ ap (λ a. and_then a (λ _. next))
          (store_bytes-ok s i r 0 text holds (omega (arith, is_room, fits)))
      ∙ ap (λ a. and_then a (after_length waiting l')) set_length-ok
      ∙ ap (λ a. and_then a (after_push l')) push_back_move-ok

  pub bytes-put : bytes put (ptr i 0 (length text)) ≡ text
  bytes-put =
      let inside : 0 + length text ≤ length r.m_data = omega (arith, is_room, fits) in
      rw (written-holds s i r 0 text holds inside) (slice-overwrite 0 text r.m_data inside)

  pub contents-joined :
      (before : List ℕ)
      → contents (written s i r 0 text) waiting.buffers ≡ before
      → contents put joined.buffers ≡ before ++ text
  contents-joined before e =
      contents-snoc put waiting.buffers (record { id = s.next_node; bptr = ptr i 0 (length text) })
      ∙ ap (λ xs. contents put waiting.buffers ++ xs) bytes-put
      ∙ ap (λ xs. xs ++ text) (contents_raws (written s i r 0 text) put refl waiting.buffers ∙ e)
