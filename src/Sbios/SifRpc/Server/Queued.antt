-- ===== src/Sbios/SifRpc/Server/Queued.antt =====
-- The way of a request through the queue, to the end of which it is put and from which it is taken.
use kernelreloaded.Common.{
  ◌∙◌, get_elem?, length-set, get_elem?-set_self, lt-length_of_some, set, none, false, ◌≡◌, some,
  ap, arith, ℕ, refl,
}
use kernelreloaded.Sbios.SifRpc.Server.{
  Server, Queue, Side, get_next_request, put_queue, put_server,
}
use kernelreloaded.Sbios.SifRpc.Server.Request.{CallPacket, requested, enqueue}
use kernelreloaded.Sbios.SifRpc.Server.Ready.{Registered, Ready}

-- The queue with the request in it.
abbrev pub waiting : CallPacket → Queue → Queue
waiting c q = record q { start = some c.server; end = some c.server }

-- The state once the request is taken from the queue again.
abbrev pub served : CallPacket → Server → Queue → Side → Side
served c sd q st =
    put_queue sd.base (record (waiting c q) { active = false; start = sd.next })
      (put_server c.server (requested c sd) (put_queue sd.base (waiting c q) st))

pub enqueue_lem :
    (c : CallPacket) (qd : ℕ) (q : Queue) (st : Side)
    → get_elem? st.queues qd ≡ some q
    → q.start ≡ none
    → enqueue c.server qd st ≡ some (put_queue qd (waiting c q) st)
unfolding enqueue
enqueue_lem c qd q st a start = rw (a, start) refl

pub next_lem :
    (qd i : ℕ) (sd : Server) (q : Queue) (st : Side)
    → get_elem? st.queues qd ≡ some q
    → q.start ≡ some i
    → get_elem? st.servers i ≡ some sd
    → get_next_request qd st
      ≡ some (some i, put_queue qd (record q { active = false; start = sd.next }) st)
unfolding get_next_request
next_lem qd i sd q st a start b = rw (a, start, b) refl

pub served-Ready :
    (g : Registered) (c : CallPacket) (st : Side) (r : Ready g st)
    → c.server ≡ g.sd
    → Ready g (served c r.server r.queue st)
served-Ready g c st r e =
    let v = requested c r.server in
    let q1 = waiting c r.queue in
    let q2 : Queue = record q1 { active = false; start = r.server.next } in
    let l = lt-length_of_some st.servers g.sd r.server r.server_at in
    let m = lt-length_of_some st.queues g.qd r.queue r.queue_at in
    record {
      server = v;
      queue = q2;
      server_at =
          ap (λ z. get_elem? (set st.servers z v) g.sd) e ∙ get_elem?-set_self st.servers g.sd v l;
      queue_at =
          ap (λ z. get_elem? (set (set st.queues z q1) z q2) g.qd) r.serves.base
          ∙ get_elem?-set_self (set st.queues g.qd q1) g.qd q2
              (omega (arith, m, length-set st.queues g.qd q1));
      serves = record {
        sid = r.serves.sid;
        func = r.serves.func;
        buff = r.serves.buff;
        cbuff = r.serves.cbuff;
        base = r.serves.base;
        link = r.serves.link;
        next = r.serves.next;
      };
      idle = record { link = r.idle.link; start = r.serves.next; next = r.idle.next };
      active = r.active;
      table = r.table;
    }
