-- ===== src/Sbios/IopHeap/Tests.antt =====
-- TGE/sbios/iopheap.c: the theorems with a fresh table of packets, and with a bind under way.
use kernelreloaded.Common.{
  ℕ, suc, ◌≡◌, refl, true, false, none, some, List, [], arith, ℤ, pos, negsuc,
}
use kernelreloaded.Sbios.Mutex.{try_lock, unlock}
use kernelreloaded.Sbios.SifRpc.Table.{Rpc, Ptr}
use kernelreloaded.Sbios.SifRpc.Request.{Command}
use kernelreloaded.Sbios.SifRpc.Reply.{request_end}
use kernelreloaded.Sbios.SifRpc.Ownership.{Inv}
use kernelreloaded.Sbios.SifRpc.Tests.{fresh, fresh-Inv, waiting, waiting-Inv, answer}
use kernelreloaded.Sbios.IopHeap.Calls.{Heap, Caller, Places, heap_init, heap_call}
use kernelreloaded.Sbios.IopHeap.Locking.{Locked, free, Result, heap_call-Result, heap_init-Result}
use kernelreloaded.Sbios.IopHeap.Answer.{callback, request_end-Locked}

abbrev places : Places
places = record { client = 3; buffer = 0x100; init_callback = 5; heap_callback = 6 }

abbrev callers : Ptr → Caller
callers p = record { endfunc = p; efarg = 0; argument = 4096 }

abbrev accepts : Command → Rpc → ℕ → ℕ × ℕ
accepts k r t = (1, suc t)

abbrev quiet : Ptr → Ptr → ℤ → Rpc × Heap × ℕ → Rpc × Heap × ℕ
quiet f x v st = st

abbrev ready : Heap
ready = record { bound = true; mutex = pos 0; packet = some 0; results = λ p. pos 0 }

abbrev unbound : Heap
unbound = record ready { bound = false; packet = none }

abbrev binding : Heap
binding = record unbound { mutex = negsuc 0 }

heap_call-Result_example :
    Result places [] fresh ready (heap_call places callers suc accepts quiet 1 7 (fresh, ready, 0))
heap_call-Result_example =
    heap_call-Result places callers suc accepts quiet (λ k q t e. omega arith) [] 1 7 fresh ready 0
      fresh-Inv (free refl refl)

heap_init-Result_example :
    Result places [] fresh unbound
      (heap_init places callers suc accepts quiet 7 (fresh, unbound, 0))
heap_init-Result_example =
    heap_init-Result places callers suc accepts quiet (λ k q t e. omega arith) [] 7 fresh unbound 0
      refl fresh-Inv (free refl refl)

abbrev keeps_inv :
    (f x : Ptr) (v : ℤ) (hs : List ℕ) (st : Rpc × Heap × ℕ)
    → Inv st.0 hs
    → Inv (quiet f x v st).0 hs
keeps_inv f x v hs st i = i

abbrev keeps_locked :
    (f x : Ptr) (v : ℤ) (hs : List ℕ) (st : Rpc × Heap × ℕ)
    → Inv st.0 hs
    → Locked places st.0 st.1
    → Locked places (quiet f x v st).0 (quiet f x v st).1
keeps_locked f x v hs st i l = l

request_end-Locked_example :
    (r' : Rpc) × (s : Heap × ℕ) × (request_end
        (callback places callers suc accepts quiet keeps_inv keeps_locked 0)
        answer
        (waiting, (binding, 0))
      ≡ some (r', s))
    × Inv r' []
    × Locked places r' s.0
request_end-Locked_example =
    request_end-Locked places callers suc accepts quiet keeps_inv keeps_locked 0 answer 0 [] waiting
      binding 0 waiting-Inv refl refl refl refl

-- A lock that is held is refused, and a second unlock changes nothing.
locking :
    (try_lock (some (pos 0)) ≡ (pos 0, some (negsuc 0)))
    × (try_lock (some (negsuc 0)) ≡ (negsuc 1, some (negsuc 0)))
    × (try_lock none ≡ (negsuc 0, none))
    × (unlock (unlock (some (negsuc 0))) ≡ some (pos 0))
unfolding try_lock unlock
locking = (refl, refl, refl, refl)
