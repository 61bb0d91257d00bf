-- ===== src/Sbios/IopHeap/Locking.antt =====
-- TGE/sbios/iopheap.c: the mutex is held exactly while the heap's client waits for an answer.
use kernelreloaded.Common.{
  true, is_zero, is_neg, false, ◌^◌, ◌%◌, sym, ℕ, ◌≡◌, refl, ap, ◌∙◌, ◌≢◌, ◌⊎◌, inl, inr, Option,
  none, some, List, if◌then◌else◌, Bool-cases, ℤ, pos, negsuc,
}
use kernelreloaded.Common.Bits.{bit}
use kernelreloaded.Sbios.Mutex.{try_lock, unlock}
use kernelreloaded.Sbios.SifRpc.Table.{Rpc, Ptr, Client, pkt_alloc, invalid_arg}
use kernelreloaded.Sbios.SifRpc.Request.{Command}
use kernelreloaded.Sbios.SifRpc.Ownership.{Inv}
use kernelreloaded.Sbios.SifRpc.Requests.{refused, under_way, bind_rpc-Outcome, call_rpc-Outcome}
use kernelreloaded.Sbios.IopHeap.Calls.{
  Heap, Caller, Places, lock, release, put_result, heap_init, heap_call, call_locked, init_locked,
  bind_args, call_args,
}

-- The lock is free and the client idle, or the lock is held and a packet tied to the client.
pub data Locked (at : Places) (r : Rpc) (h : Heap) : Type 0 where
  free : h.mutex ≡ pos 0 → (r.clients at.client).pkt_addr ≡ none → Locked at r h
  held : (p : ℕ) → h.mutex ≡ negsuc 0 → (r.clients at.client).pkt_addr ≡ some p → Locked at r h

-- What a call of the heap can come to.
pub data Result {T : Type 0} (at : Places) (others : List ℕ) (r : Rpc) (h : Heap)
    (o : Option (ℤ × Rpc × Heap × T)) : Type 0 where
  -- The call is refused with an error, the client and the lock are as they were.
  turned_away :
      (v : ℤ) (r' : Rpc) (h' : Heap) (t' : T)
      → o ≡ some (v, r', h', t')
      → (v ≡ negsuc 0) ⊎ (v ≡ negsuc 1)
      → r'.clients ≡ r.clients
      → h'.mutex ≡ h.mutex
      → Inv r' others
      → Locked at r' h'
      → Result at others r h o
  -- The call is under way, and it holds the lock, which was free.
  started :
      (r' : Rpc) (h' : Heap) (t' : T)
      → o ≡ some (pos 0, r', h', t')
      → h.mutex ≡ pos 0
      → h'.mutex ≡ negsuc 0
      → Inv r' others
      → Locked at r' h'
      → Result at others r h o

pub Locked-clients :
    (at : Places) (r r' : Rpc) (h h' : Heap)
    → r'.clients ≡ r.clients
    → h'.mutex ≡ h.mutex
    → Locked at r h
    → Locked at r' h'
Locked-clients at r r' h h' c m (free e i) =
    free (m ∙ e) (ap (λ (f : ℕ → Client). (f at.client).pkt_addr) c ∙ i)
Locked-clients at r r' h h' c m (held p e i) =
    held p (m ∙ e) (ap (λ (f : ℕ → Client). (f at.client).pkt_addr) c ∙ i)

refused_is_neg : (v : ℤ) → (v ≡ pkt_alloc) ⊎ (v ≡ invalid_arg) → is_neg v ≡ true
refused_is_neg v (inl e) = rw e
refused_is_neg v (inr e) = rw e

refused_is_zero : (v : ℤ) → (v ≡ pkt_alloc) ⊎ (v ≡ invalid_arg) → is_zero v ≡ false
refused_is_zero v (inl e) = rw e
refused_is_zero v (inr e) = rw e

lock_free : (h : Heap) → h.mutex ≡ pos 0 → lock h ≡ (pos 0, record h { mutex = negsuc 0 })
unfolding lock try_lock
lock_free h m = rw m

lock_held : (h : Heap) → h.mutex ≡ negsuc 0 → lock h ≡ (negsuc 1, record h { mutex = negsuc 0 })
unfolding lock try_lock
lock_held h m = rw m

release_held : (h : Heap) → h.mutex ≡ negsuc 0 → release h ≡ record h { mutex = pos 0 }
unfolding release unlock
release_held h m = rw m

module _ {T : Type 0} (at : Places) (callers : Ptr → Caller) (init_rpc : T → T)
    (send_cmd : Command → Rpc → T → ℕ × T)
    (end_call : Ptr → Ptr → ℤ → Rpc × Heap × T → Rpc × Heap × T)
    (sends : (k : Command) (q : Rpc) (t : T) → (send_cmd k q t).0 ≢ 0) (others : List ℕ) where
  call_with :
      (number p : ℕ) (r : Rpc) (h : Heap) (t : T) {l : ℤ × Heap}
      → h.bound ≡ true
      → lock h ≡ l
      → heap_call at callers init_rpc send_cmd end_call number p (r, h, t)
        ≡ call_locked at callers init_rpc send_cmd end_call number p r t l
  unfolding heap_call
  call_with number p r h t bound l =
      let go = call_locked at callers init_rpc send_cmd end_call number p r t in
      ap (λ b. if b then go (lock h) else some (negsuc 0, r, h, t)) bound ∙ ap go l

  init_with :
      (p : ℕ) (r : Rpc) (h : Heap) (t : T) {l : ℤ × Heap}
      → h.bound ≡ false
      → lock h ≡ l
      → heap_init at callers init_rpc send_cmd end_call p (r, h, t)
        ≡ init_locked at callers init_rpc send_cmd end_call p r (init_rpc t) l
  unfolding heap_init
  init_with p r h t unbound l =
      let k = callers p in
      let (r', h', t') = end_call k.endfunc k.efarg (pos 0) (r, put_result p (pos 0) h, t) in
      let go = init_locked at callers init_rpc send_cmd end_call p r (init_rpc t) in
      ap (λ b. if b then some (pos 0, r', h', t') else go (lock h)) unbound ∙ ap go l

  -- With a ring that takes every command, `sbcall_iopaheapalloc` and `sbcall_iopheapfree` are either
  -- refused, with the lock and the client as they were, or under way with the lock, which was free;
  -- afterwards the lock is held exactly while the client waits.
  pub heap_call-Result :
      (number p : ℕ) (r : Rpc) (h : Heap) (t : T)
      → Inv r others
      → Locked at r h
      → Result at others r h (heap_call at callers init_rpc send_cmd end_call number p (r, h, t))
  unfolding call_locked heap_call bit
  heap_call-Result number p r h t inv l = elim (Bool-cases h.bound) [
    | inr unbound ↦ turned_away (negsuc 0) r h t (rw unbound) (inl refl) refl refl inv l
    | inl bound ↦ elim l [
      | held q m e ↦
          turned_away (negsuc 1) r (record h { mutex = negsuc 0 }) t
            (call_with number p r h t bound (lock_held h m)) (inr refl) refl (sym m) inv
            (held q refl e)
      | free m e ↦
          let h' : Heap = record h {
            mutex = negsuc 0;
            packet = some ((callers p).argument % 2 ^ 32);
          } in
          elim (call_rpc-Outcome send_cmd r t at.client others inv (λ k q. sends k q t)
            (call_args at number p) refl) [
              | refused v after s run code same inv' ↦
                  turned_away (negsuc 1) after (release h') s
                    (call_with number p r h t bound (lock_free h m)
                      ∙ rw (run, refused_is_neg v code))
                    (inr refl) same (ap (λ x. x.mutex) (release_held h' refl) ∙ sym m) inv'
                    (free (ap (λ x. x.mutex) (release_held h' refl))
                      (ap (λ (f : ℕ → Client). (f at.client).pkt_addr) same ∙ e))
              | under_way q after s run lone tied st inv' ↦
                  started after h' s (call_with number p r h t bound (lock_free h m) ∙ rw run) m
                    refl inv' (held q refl tied)
            ]
    ]
  ]

  -- While the heap is not bound, and with a ring that takes every command, `sbcall_iopheapinit` is
  -- either refused, with the lock and the client as they were, or under way with the lock, which was
  -- free; afterwards the lock is held exactly while the client waits.
  pub heap_init-Result :
      (p : ℕ) (r : Rpc) (h : Heap) (t : T)
      → h.bound ≡ false
      → Inv r others
      → Locked at r h
      → Result at others r h (heap_init at callers init_rpc send_cmd end_call p (r, h, t))
  unfolding init_locked bit
  heap_init-Result p r h t unbound inv l = elim l [
    | held q m e ↦
        turned_away (negsuc 1) r (record h { mutex = negsuc 0 }) (init_rpc t)
          (init_with p r h t unbound (lock_held h m)) (inr refl) refl (sym m) inv (held q refl e)
    | free m e ↦
        let h' : Heap = record h { mutex = negsuc 0 } in
        elim (bind_rpc-Outcome send_cmd r (init_rpc t) at.client others inv
          (λ k q. sends k q (init_rpc t)) (bind_args at p) refl) [
            | refused v after s run code same inv' ↦
                turned_away (negsuc 1) after (release h') s
                  (init_with p r h t unbound (lock_free h m) ∙ rw (run, refused_is_zero v code))
                  (inr refl) same (ap (λ x. x.mutex) (release_held h' refl) ∙ sym m) inv'
                  (free (ap (λ x. x.mutex) (release_held h' refl))
                    (ap (λ (f : ℕ → Client). (f at.client).pkt_addr) same ∙ e))
            | under_way q after s run lone tied st inv' ↦
                started after h' s (init_with p r h t unbound (lock_free h m) ∙ rw run) m refl inv'
                  (held q refl tied)
          ]
  ]
