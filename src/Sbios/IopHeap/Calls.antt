-- ===== src/Sbios/IopHeap/Calls.antt =====
-- TGE/sbios/iopheap.c: the calls, and the callbacks with which their answers end.
use kernelreloaded.Common.{
  is_zero, ℕ, ◌-◌, ◌%◌, ◌^◌, Bool, true, Option, none, some, [], ltb, ◌==◌, if◌then◌else◌, ℤ, pos,
  negsuc, is_neg,
}
use mathlib.Core.Option
use kernelreloaded.Sbios.Mutex.{try_lock, unlock}
use kernelreloaded.Sbios.SifRpc.Table.{Rpc, Ptr}
use kernelreloaded.Sbios.SifRpc.Request.{BindArgs, CallArgs, Command, bind_rpc, call_rpc}

abbrev pub u32 : ℕ
u32 = 2 ^ 32

-- `_ih_caps`, `iopHeapMutex`, the word at `iopheap_pkt` (`none` while that is NULL), and the field
-- `result` of each caller's structure.
pub record Heap : Type 0 where
  pub bound : Bool
  pub mutex : ℤ
  pub packet : Option ℕ
  pub results : Ptr → ℤ

-- What stands in a caller's `tge_sbcall_rpc_arg_t` and in the argument behind it: the size to
-- allocate or the address to free.
pub record Caller : Type 0 where
  pub endfunc : Ptr
  pub efarg : Ptr
  pub argument : ℕ

-- Where the linker puts `_ih_cd`, the buffer and the callbacks.
pub record Places : Type 0 where
  pub client : Ptr
  pub buffer : Ptr
  pub init_callback : Ptr
  pub heap_callback : Ptr

-- The heap's lock, taken and given back.
unfoldable pub lock : Heap → ℤ × Heap
lock h = let (r, m) = try_lock (some h.mutex) in (r, record h { mutex = Option.get_or m h.mutex })

unfoldable pub release : Heap → Heap
release h = record h { mutex = Option.get_or (unlock (some h.mutex)) h.mutex }

abbrev pub put_result : Ptr → ℤ → Heap → Heap
put_result p v h = record h { results = λ x. if x == p then v else h.results x }

-- A 32-bit word as a signed number.
abbrev pub to_int : ℕ → ℤ
to_int w = if ltb (w % u32) (2 ^ 31) then pos (w % u32) else negsuc (u32 - 1 - w % u32)

-- The arguments of the remote calls.
abbrev pub bind_args : Places → Ptr → BindArgs
bind_args at p = record {
  sid = 0x8000_0003;
  mode = 1;
  end_function = at.init_callback;
  end_param = p;
}

abbrev pub call_args : Places → ℕ → Ptr → CallArgs
call_args at number p = record {
  rpc_number = number;
  mode = 1;
  send = at.buffer;
  send_size = 4;
  receive = at.buffer;
  recv_size = 4;
  end_function = at.heap_callback;
  end_param = p;
}

-- `init_rpc` is `SifInitRpc`, which touches neither packets nor clients; `end_call` calls a caller's
-- `endfunc` with its `efarg` and the result.
module _ {T : Type 0} (at : Places) (callers : Ptr → Caller) (init_rpc : T → T)
    (send_cmd : Command → Rpc → T → ℕ × T)
    (end_call : Ptr → Ptr → ℤ → Rpc × Heap × T → Rpc × Heap × T) where
  -- `iopHeapInitCallback`.
  unfoldable pub init_callback : Ptr → Rpc × Heap × T → Rpc × Heap × T
  init_callback p (r, h, t) =
      let k = callers p in
      if (r.clients at.client).server == 0
      then end_call k.endfunc k.efarg (negsuc 0) (r, release (put_result p (negsuc 0) h), t)
      else end_call k.endfunc k.efarg (pos 0)
          (r, release (record (put_result p (pos 0) h) { packet = some 0; bound = true }), t)

  -- `iopHeapCallback`; `word` is what the answer left in the buffer.
  unfoldable pub heap_callback : ℕ → Ptr → Rpc × Heap × T → Rpc × Heap × T
  heap_callback word p (r, h, t) =
      let k = callers p in
      end_call k.endfunc k.efarg (to_int word)
        (r, release (record (put_result p (to_int word) h) { packet = some (word % u32) }), t)

  -- What follows the attempt to lock in `sbcall_iopheapinit`.
  unfoldable pub init_locked : Ptr → Rpc → T → ℤ × Heap → Option (ℤ × Rpc × Heap × T)
  init_locked p r t (busy, h) =
      if is_zero busy
      then elim (bind_rpc send_cmd at.client (bind_args at p) [] (r, t)) [
        | none ↦ none
        | some (res, r', t') ↦
            if is_zero res then some (pos 0, r', h, t') else some (negsuc 1, r', release h, t')
      ]
      else some (negsuc 1, r, h, t)

  -- `sbcall_iopheapinit`.
  unfoldable pub heap_init : Ptr → Rpc × Heap × T → Option (ℤ × Rpc × Heap × T)
  unfolding init_locked
  heap_init p (r, h, t) =
      let k = callers p in
      if h.bound
      then (let (r', h', t') = end_call k.endfunc k.efarg (pos 0) (r, put_result p (pos 0) h, t) in
          some (pos 0, r', h', t'))
      else init_locked p r (init_rpc t) (lock h)

  -- What follows the attempt to lock in `sbcall_iopaheapalloc` and `sbcall_iopheapfree`, by the
  -- number of the remote function.
  unfoldable pub call_locked : ℕ → Ptr → Rpc → T → ℤ × Heap → Option (ℤ × Rpc × Heap × T)
  call_locked number p r t (busy, h) =
      if is_zero busy
      then elim (call_rpc send_cmd at.client (call_args at number p) [] (r, t)) [
        | none ↦ none
        | some (res, r', t') ↦
            let h' : Heap = record h { packet = some ((callers p).argument % u32) } in
            if is_neg res then some (negsuc 1, r', release h', t') else some (pos 0, r', h', t')
      ]
      else some (negsuc 1, r, h, t)

  -- The common part of `sbcall_iopaheapalloc` and `sbcall_iopheapfree`.
  unfoldable pub heap_call : ℕ → Ptr → Rpc × Heap × T → Option (ℤ × Rpc × Heap × T)
  unfolding call_locked
  heap_call number p (r, h, t) =
      if h.bound then call_locked number p r t (lock h) else some (negsuc 0, r, h, t)

  unfoldable pub heap_alloc : Ptr → Rpc × Heap × T → Option (ℤ × Rpc × Heap × T)
  unfolding heap_call
  heap_alloc p = heap_call 1 p

  unfoldable pub heap_free : Ptr → Rpc × Heap × T → Option (ℤ × Rpc × Heap × T)
  unfolding heap_call
  heap_free p = heap_call 2 p
