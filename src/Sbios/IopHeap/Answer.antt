-- ===== src/Sbios/IopHeap/Answer.antt =====
-- TGE/sbios/iopheap.c: the answer to a call of the heap gives the lock back.
use kernelreloaded.Common.{
  refl, Bool, subst, ◌∙◌, ◌∷◌, ==_refl, sym, true, some, if_rule, ℕ, ◌≡◌, none, List, ◌==◌,
  if◌then◌else◌, ℤ, pos, negsuc,
}
use mathlib.Core.Option.{some-injective}
use kernelreloaded.Sbios.Mutex.{unlock}
use kernelreloaded.Sbios.SifRpc.Table.{Rpc, Ptr, put_client, free_packet}
use kernelreloaded.Sbios.SifRpc.Request.{Command}
use kernelreloaded.Sbios.SifRpc.Reply.{Answer, answered, has_callback, request_end}
use kernelreloaded.Sbios.SifRpc.Ownership.{Inv}
use kernelreloaded.Sbios.SifRpc.Answers.{
  request_end-Inv, answered-pkt_addr, untied-Inv, told, request_end_run,
}
use kernelreloaded.Sbios.IopHeap.Calls.{Heap, Caller, Places, release, init_callback, heap_callback}
use kernelreloaded.Sbios.IopHeap.Locking.{Locked, free, Locked-clients}

release-mutex : (h : Heap) → h.mutex ≡ negsuc 0 → (release h).mutex ≡ pos 0
unfolding release unlock
release-mutex h m = rw m

module _ {T : Type 0} (at : Places) (callers : Ptr → Caller) (init_rpc : T → T)
    (send_cmd : Command → Rpc → T → ℕ × T)
    (end_call : Ptr → Ptr → ℤ → Rpc × Heap × T → Rpc × Heap × T)
    (keeps-Inv : (f x : Ptr) (v : ℤ) (hs : List ℕ) (st : Rpc × Heap × T)
      → Inv st.0 hs
      → Inv (end_call f x v st).0 hs)
    (keeps-Locked : (f x : Ptr) (v : ℤ) (hs : List ℕ) (st : Rpc × Heap × T)
      → Inv st.0 hs
      → Locked at st.0 st.1
      → Locked at (end_call f x v st).0 (end_call f x v st).1)
    (word : ℕ) where
  -- The end function of a call of the heap, by its address.
  abbrev pub end_function : Ptr → Ptr → Rpc × Heap × T → Rpc × Heap × T
  end_function f p st =
      if f == at.init_callback
      then init_callback at callers init_rpc send_cmd end_call p st
      else heap_callback at callers init_rpc send_cmd end_call word p st

  end_function-Inv :
      (f p : Ptr) (hs : List ℕ) (st : Rpc × Heap × T) → Inv st.0 hs → Inv (end_function f p st).0 hs
  unfolding init_callback heap_callback
  end_function-Inv f p hs st inv =
      if_rule (λ (q : Rpc × Heap × T). Inv q.0 hs) (f == at.init_callback) _ _
        (λ i.
          if_rule (λ (q : Rpc × Heap × T). Inv q.0 hs) ((st.0.clients at.client).server == 0) _ _
            (λ z. keeps-Inv _ _ _ hs _ inv) (λ z. keeps-Inv _ _ _ hs _ inv))
        (λ i. keeps-Inv _ _ _ hs _ inv)

  end_function-Locked :
      (f p : Ptr) (hs : List ℕ) (st : Rpc × Heap × T)
      → Inv st.0 hs
      → (st.0.clients at.client).pkt_addr ≡ none
      → st.1.mutex ≡ negsuc 0
      → Locked at (end_function f p st).0 (end_function f p st).1
  unfolding init_callback heap_callback
  end_function-Locked f p hs st inv idle m =
      let P = λ (q : Rpc × Heap × T). Locked at q.0 q.1 in
      let step = λ (e x : Ptr) (v : ℤ) (h : Heap) (k : h.mutex ≡ negsuc 0).
        keeps-Locked e x v hs (st.0, release h, st.2) inv (free (release-mutex h k) idle) in
      if_rule P (f == at.init_callback) _ _
        (λ i.
          if_rule P ((st.0.clients at.client).server == 0) _ _ (λ z. step _ _ _ _ m)
            (λ z. step _ _ _ _ m))
        (λ i. step _ _ _ _ m)

  -- The same, as the remote interface calls it.
  abbrev pub callback : Ptr → Ptr → Rpc × (Heap × T) → Rpc × (Heap × T)
  callback f p (r, s) = let o = end_function f p (r, s.0, s.1) in (o.0, (o.1, o.2))

  -- The answer to a call of the heap gives the lock back before the caller's end function runs, so
  -- that this may start the next call; when it returns, packets and clients belong together and the
  -- lock is held exactly while the client waits. The end function is any that keeps these two.
  pub request_end-Locked :
      (a : Answer) (p : ℕ) (others : List ℕ) (r : Rpc) (h : Heap) (t : T)
      → Inv r others
      → a.client ≡ at.client
      → (r.clients a.client).pkt_addr ≡ some p
      → h.mutex ≡ negsuc 0
      → has_callback a (r.clients a.client) ≡ true
      → (r' : Rpc) × (s : Heap × T) × (request_end callback a (r, (h, t)) ≡ some (r', s))
        × Inv r' others
        × Locked at r' s.0
  unfolding free_packet
  request_end-Locked a p others r h t inv is_heap mine m called =
      let c = r.clients a.client in
      let untied = put_client a.client (answered a c) r in
      let ended = callback c.end_function c.end_param (untied, (h, t)) in
      let keeps : (f x : Ptr) (hs : List ℕ) (st : Rpc × (Heap × T))
          → Inv st.0 hs
          → Inv (callback f x st).0 hs =
        λ f x hs st i. end_function-Inv f x hs (st.0, st.1.0, st.1.1) i in
      let (r', s', e, inv', freed) = request_end-Inv callback keeps r (h, t) a others inv p mine in
      let idle : (untied.clients at.client).pkt_addr ≡ none =
        rw (sym is_heap, ==_refl a.client) (answered-pkt_addr a c) in
      let last = told callback keeps r (h, t) a others inv p mine in
      let locked : Locked at ended.0 ended.1.0 =
        end_function-Locked c.end_function c.end_param (p ∷ others) (untied, h, t)
          (untied-Inv callback keeps r (h, t) a others inv p mine) idle m in
      let run = request_end_run callback keeps r (h, t) a others inv p mine in
      let locked' : Locked at last.0 last.1.0 =
        subst (λ (b : Bool). let q = if b then ended else (untied, (h, t)) in Locked at q.0 q.1.0)
          (sym called) locked in
      let same = some-injective (free_packet p last.0, last.1) (r', s') (sym run ∙ e) in
      (
        r',
        s',
        e,
        inv',
        subst (λ (q : Rpc × (Heap × T)). Locked at q.0 q.1.0) same
            (Locked-clients at last.0 (free_packet p last.0) last.1.0 last.1.0 refl refl locked'),
      )
