-- ===== src/PageAllocator/RoundTrip.antt =====
-- Taking a page or a reference and giving it back.
use chaotix.Base.{
  ℕ, suc, ◌+◌, ◌-◌, ◌*◌, ◌/◌, ◌%◌, ◌<◌, ◌≡◌, sym, ap, ◌∙◌, inl, inr, true, false, arith, ltb, leb,
  ◌==◌, ==_iff, get_or, set, get_or-set_self, set_twice, set-get_or,
}
use chaotix.Base.Outcome.{ok, ◌>>=◌}
use chaotix.Base.Bits.{set_bit, clear_bit, set_bit-clear_bit}
use chaotix.PageAllocator.{
  PageAllocator, is_free, page_allocator_alloc, page_allocator_ref_page, page_allocator_unref_page,
  page_size, uint8_max,
}
use chaotix.PageAllocator.Inv.{IsValid}
use chaotix.PageAllocator.Alloc.{
  without_page, without_page-IsValid, page_allocator_alloc-without_page, free_left,
}
use chaotix.PageAllocator.Unref.{
  InUse, with_count, with_page, after_unref, page_allocator_unref_page-after_unref,
  with_count-IsValid,
}

with_page-without_page :
    (a : PageAllocator) (i : ℕ)
    → IsValid a
    → i < 32 * a.bitmap_len
    → is_free a.bitmap i ≡ true
    → with_page (without_page a i) i ≡ a
with_page-without_page a i v l f =
    let w = get_or a.bitmap (i / 32) 0 in
    let cleared = clear_bit w (i % 32) in
    let none_left : get_or a.ref_counts i 0 ≡ 0 =
      (==_iff (get_or a.ref_counts i 0) 0).0 (sym (v.exact i l) ∙ f) in
    let bits : set (without_page a i).bitmap (i / 32)
          (set_bit (get_or (without_page a i).bitmap (i / 32) 0) (i % 32))
        ≡ a.bitmap =
      set_twice a.bitmap (i / 32) cleared
        (set_bit (get_or (set a.bitmap (i / 32) cleared) (i / 32) 0) (i % 32))
      ∙ ap (λ x. set a.bitmap (i / 32) (set_bit x (i % 32)))
          (get_or-set_self a.bitmap (i / 32) cleared 0 (omega (arith, v.words)))
      ∙ ap (set a.bitmap (i / 32)) (set_bit-clear_bit w (i % 32) f)
      ∙ set-get_or a.bitmap (i / 32) 0 in
    let counts : set (without_page a i).ref_counts i 0 ≡ a.ref_counts =
      set_twice a.ref_counts i 1 0
      ∙ ap (set a.ref_counts i) (sym none_left)
      ∙ set-get_or a.ref_counts i 0 in
    let memory : (without_page a i).free + 4 ≡ a.free =
      omega (arith, free_left a i v l f, v.free_memory) in
    λ k. record a { bitmap = bits k; ref_counts = counts k; free = memory k }

-- A page that a valid allocator has given out goes back with one call: when page_allocator_alloc gives
-- an address, giving back the reference to it restores the allocator as it was, and it does not panic.
pub page_allocator_alloc-page_allocator_unref_page :
    (a : PageAllocator)
    → IsValid a
    → (addr : ℕ) (b : PageAllocator) → page_allocator_alloc a ≡ ok (addr, b)
    → page_allocator_unref_page addr b ≡ ok a
page_allocator_alloc-page_allocator_unref_page a v addr b h =
    elim (page_allocator_alloc-without_page a v) [
      | inl (i, e, l, f, lowest) ↦
          let one : get_or (without_page a i).ref_counts i 0 ≡ 1 =
            get_or-set_self a.ref_counts i 1 0 (omega (arith, v.counts)) in
          let u : InUse (without_page a i) i = record {
            in_memory = l;
            referenced = omega (arith, one);
          } in
          let r =
            page_allocator_unref_page-after_unref (without_page a i) i
              (without_page-IsValid a i v l f) u in
          let p : ◌≡◌ {A = ℕ × PageAllocator} (i * page_size, without_page a i) (addr, b) =
            let q = sym e ∙ h in cc in
          let z : after_unref (without_page a i) i ≡ with_page (without_page a i) i = simp one in
          ap (λ q. page_allocator_unref_page (q.0) (q.1)) (sym p)
          ∙ r.0
          ∙ ap ok (z ∙ with_page-without_page a i v l f)
      | inr (e, n) ↦ absurd (cc)
    ]

-- A further reference to a page in use that has fewer than 254 can be given back: taking it and giving
-- it back restores the allocator, which must be valid.
pub page_allocator_ref_page-page_allocator_unref_page :
    (a : PageAllocator) (i : ℕ)
    → IsValid a
    → InUse a i
    → get_or a.ref_counts i 0 < 254
    → (page_allocator_ref_page (i * page_size) a >>= page_allocator_unref_page (i * page_size))
      ≡ ok a
unfolding page_allocator_ref_page
page_allocator_ref_page-page_allocator_unref_page a i v u l =
    let c = get_or a.ref_counts i 0 in
    let small : ltb c uint8_max ≡ true = ground (arith, l) in
    let idx : (i * page_size) / page_size ≡ i = omega arith in
    let zero_mod : (i * page_size % page_size == 0) ≡ true = ground arith in
    let up : c + 1 ≡ suc c = omega arith in
    let b = with_count a i (suc c) in
    let s : page_allocator_ref_page (i * page_size) a ≡ ok b =
      simp (page_allocator_ref_page, zero_mod, idx, small, up) in
    let more : get_or b.ref_counts i 0 ≡ suc c =
      get_or-set_self a.ref_counts i (suc c) 0 (omega (arith, v.counts, u.in_memory)) in
    let r =
      page_allocator_unref_page-after_unref b i (with_count-IsValid a i c v u)
        (record { in_memory = u.in_memory; referenced = omega (arith, more) }) in
    let big : leb uint8_max (suc c) ≡ false = ground (arith, l) in
    let not_one : (suc c == 1) ≡ false = ground (arith, u.referenced) in
    let down : suc c - 1 ≡ c = omega arith in
    let back : set b.ref_counts i c ≡ a.ref_counts =
      set_twice a.ref_counts i (suc c) c ∙ set-get_or a.ref_counts i 0 in
    let z : after_unref b i ≡ a =
      simp (more, big, not_one, down) (λ k. record a { ref_counts = back k }) in
    ap (λ o. o >>= page_allocator_unref_page (i * page_size)) s ∙ r.0 ∙ ap ok z
