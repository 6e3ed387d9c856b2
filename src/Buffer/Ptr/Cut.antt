-- ===== src/Buffer/Ptr/Cut.antt =====
-- A window that is cut out of another one (common/buffer/buffer_ptr.cc).
use replica_wbcache.Prelude.{
  ℕ, ◌+◌, ◌≤◌, ◌≡◌, sym, ap, ◌∙◌, true, false, ok, arith, take, drop, length, leb, ltb,
}
use replica_wbcache.Prelude.Slices.{slice-take, drop-drop}
use replica_wbcache.Intarith.{u64}
use replica_wbcache.Buffer.Store.{Store, load_bytes}
use replica_wbcache.Buffer.Ptr.{Ptr, sub_ptr, copy_out, read_from}
use replica_wbcache.Buffer.Ptr.Access.{IsWindow, bytes, data_of, raw_id-ok}

module _ (s : Store) (p : Ptr) (w : IsWindow s p) (off len : ℕ) (h : off + len ≤ p.m_len) where
  pub sub_ptr-ok : sub_ptr p off len s ≡ ok (record p { m_off = p.m_off + off; m_len = len }, s)
  unfolding sub_ptr
  sub_ptr-ok = rw (w.is_raw) (ground (arith, w.fits, w.small))

-- The bytes of a part of a window.
pub bytes-sub :
    (s : Store) (p : Ptr) (off len : ℕ)
    → off + len ≤ p.m_len
    → bytes s (record p { m_off = p.m_off + off; m_len = len }) ≡ take len (drop off (bytes s p))
bytes-sub s p off len h =
    let xs = data_of s p.m_raw in
    let e : p.m_off + off ≡ off + p.m_off = omega arith in
    ap (λ (k : ℕ). take len (drop k xs)) e
    ∙ sym (ap (take len) (drop-drop off p.m_off xs))
    ∙ sym (slice-take off len p.m_len (drop p.m_off xs) h)

-- A read gives what the window holds.
module _ (s : Store) (p : Ptr) (w : IsWindow s p) (off len : ℕ) (h : off + len ≤ p.m_len) where
  loads : load_bytes s w.i (p.m_off + off) len ≡ ok (take len (drop off (bytes s p)))
  unfolding load_bytes
  loads =
      let fits : leb (p.m_off + off + len) (length w.r.m_data) ≡ true = ground (arith, w.fits) in
      let all_of : data_of s p.m_raw ≡ w.r.m_data = rw (w.is_raw, w.holds) in
      rw (load_bytes, w.holds, fits)
        (ap ok
          (ap (λ xs. take len (drop (p.m_off + off) xs)) (sym all_of) ∙ bytes-sub s p off len h))

  pub read_from-ok : read_from p off len s ≡ ok (take len (drop off (bytes s p)), s)
  unfolding read_from
  read_from-ok = rw (raw_id-ok w, loads)

  pub copy_out-ok : copy_out p off len s ≡ ok (take len (drop off (bytes s p)), s)
  unfolding copy_out
  copy_out-ok =
      let inside : ltb p.m_len (u64 (off + len)) ≡ false = ground (arith, w.fits, w.small) in
      rw (raw_id-ok w, inside, read_from-ok)
