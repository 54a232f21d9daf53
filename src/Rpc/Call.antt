-- ===== src/Rpc/Call.antt =====
-- One remote call from end to end: rpcc::call on the client, rpcs::dispatch on the server, and
-- rpcc::got_pdu and call_m on the client again, with the bytes that pass between them.
use ds.Base.{
  ℕ, ◌+◌, ◌%◌, ◌^◌, ◌≤◌, ◌<◌, ◌≡◌, ◌≢◌, ◌⊎◌, inl, inr, refl, ap, ◌∙◌, ◌&&◌, not, true, false, List,
  [], ◌∷◌, ◌++◌, Option, none, some, arith, Option-cases, leb, ◌==◌, ◌>>=◌, Mem, find, insert,
  find-insert, length,
}
use ds.Rpc.Marshall.{Marshall, ReplyHeader, marshall}
use ds.Rpc.Marshall.Writes.{memory, max_fill}
use ds.Rpc.Unmarshall.{Unmarshall, unmarshall, take_in, okdone}
use ds.Rpc.Codec.{Codec}
use ds.Rpc.Codec.Laws.{Lawful}
use ds.Rpc.Message.{
  IsMessage, encode_req, encode_reply, ReqInRange, unpack_reply_header_lem, body_lem,
}
use ds.Rpc.Message.Packing.{req-IsMessage}
use ds.Rpc.Client.{
  Client, Caller, Begun, sent, begin_call, bind_proc, got_pdu, take_reply, end_call, request_header,
  new_caller, call_args, call_result,
}
use ds.Rpc.Server.{Server, dispatch}
use ds.Rpc.Server.Handler.{Method, handler}
use ds.Rpc.Server.Dispatch.{Arrives, dispatch_plain}
use ds.Rpc.Server.Duplicates.{replies_of, dispatch_new, dispatch_first}
use ds.Rpc.Window.{check, fresh}
use ds.Rpc.Client.Acks.{front}

-- The client's side of rpcc::call, up to the first send.
pub start_call : {A : Type 0} → Codec A → Mem → A → ℕ → ℕ → Client → Option Begun
start_call c fresh_mem a junk proc cl =
    call_args c fresh_mem a >>= λ req. begin_call junk proc req cl

-- The client's side of rpcc::call when the reply in the `n` bytes at `b` comes.
pub finish_call : {R : Type 0} → Codec R → R → ℕ → Mem → ℕ → Client → Option (ℕ × R)
finish_call c r0 xid b n cl = call_result c r0 (end_call xid (got_pdu b n cl)).0

take_reply_lem :
    (b : Mem) (n : ℕ) (h : ReplyHeader) (cl : Client) (ca : Caller)
    → 24 ≤ n
    → find h.xid cl.calls ≡ some ca
    → ca.finished ≡ false
    → (end_call h.xid (take_reply h (record (unmarshall b n) { ind = 24 }) cl)).0
      ≡ (h.ret, record (unmarshall b n) { ind = 24 })
unfolding take_reply end_call take_in
take_reply_lem b n h cl ca small k waiting =
    let ca' : Caller = record ca {
      un = record { buf = b; sz = n; ind = 24; ok = leb 24 n };
      intret = h.ret;
      finished = true;
    } in
    ground (arith, find-insert h.xid h.xid ca' cl.calls)

got_pdu_lem :
    (b : Mem) (n : ℕ) (h : ReplyHeader) (gap body : List ℕ) (cl : Client) (ca : Caller)
    → h.xid < 2 ^ 32
    → h.ret < 2 ^ 32
    → IsMessage b n (encode_reply h ++ gap) body
    → find h.xid cl.calls ≡ some ca
    → ca.finished ≡ false
    → (end_call h.xid (got_pdu b n cl)).0 ≡ (h.ret, record (unmarshall b n) { ind = 24 })
unfolding got_pdu
got_pdu_lem b n h gap body cl ca p q msg k waiting =
    ap (λ (t : ReplyHeader × Unmarshall). (end_call h.xid (take_reply t.0 t.1 cl)).0)
      (unpack_reply_header_lem b n h gap body p q msg).0
    ∙ take_reply_lem b n h cl ca (omega (arith, msg.size)) k waiting

pub current_lem : (a b : ℕ) → a ≡ b → (not (a == 0) && not (a == b)) ≡ false
current_lem a b h = ground arith

module _ {R : Type 0} {cr : Codec R} {er : R → List ℕ} {rr : R → Type 0}
    (lr : Lawful cr er rr) where
  -- A reply gives the waiting call the status and the result that the server wrote.
  pub finish_call_lem :
      (b : Mem) (n : ℕ) (h : ReplyHeader) (gap : List ℕ) (cl : Client) (ca : Caller) (r old : R)
      → h.xid < 2 ^ 32
      → h.ret < 2 ^ 31
      → n < 2 ^ 31
      → rr r
      → IsMessage b n (encode_reply h ++ gap) (er r)
      → find h.xid cl.calls ≡ some ca
      → ca.finished ≡ false
      → finish_call cr old h.xid b n cl ≡ some (h.ret, r)
  unfolding finish_call call_result okdone
  finish_call_lem b n h gap cl ca r old p q small ok msg k waiting =
      rw (got_pdu_lem b n h gap (er r) cl ca p (omega arith) msg k waiting) (
        ground (
          arith,
          body_lem lr b n r old ok small
              (unpack_reply_header_lem b n h gap (er r) p (omega arith) msg).1,
        ))

module _ {A : Type 0} {ca : Codec A} {ea : A → List ℕ} {ra : A → Type 0}
    (la : Lawful ca ea ra) where
  -- A client that is bound, or calls bind before it is, sends its arguments in one message under a fresh
  -- xid, and waits for that xid.
  pub start_call_lem :
      (fresh_mem : Mem) (a : A) (junk proc : ℕ) (cl : Client)
      → (proc == bind_proc) ≡ not cl.bind_done
      → 24 + length (ea a) ≤ max_fill
      → (m : Marshall) × (cl' : Client) × (ca' : Caller) × (start_call ca fresh_mem a junk proc cl
          ≡ some (sent (request_header proc cl) m cl'))
        × (find cl.xid cl'.calls ≡ some ca')
        × (ca'.finished ≡ false)
        × (m.ind ≡ 24 + length (ea a))
        × IsMessage (memory m) m.ind (encode_req (request_header proc cl)) (ea a)
  unfolding start_call call_args begin_call
  start_call_lem fresh_mem a junk proc cl allowed room =
      let (m, packed, alloc, size, msg) =
        req-IsMessage la fresh_mem a (request_header proc cl) room in
      let ca' = new_caller junk cl.xid in
      (
        m,
        record cl { xid = (cl.xid + 1) % 2 ^ 32; calls = insert cl.xid ca' cl.calls },
        ca',
        ground (arith, packed, Option-cases (ca.put a (marshall fresh_mem))),
        ground (arith, find-insert cl.xid cl.xid ca' cl.calls),
        refl,
        size,
        msg,
      )

module _ {App : Type 0} where
  -- The server takes the request of the client as a new one: the client does not ask for
  -- at-most-once, or it sent on this connection or not at all before, and its window says so.
  abbrev pub IsNew : Client → Server App → ℕ → Type 0
  IsNew cl s c =
      (cl.clt_nonce ≡ 0)
      ⊎ ((cl.clt_nonce ≢ 0)
          × ((find cl.clt_nonce s.conns ≡ some c) ⊎ (find cl.clt_nonce s.conns ≡ none))
          × ((check cl.xid (front cl.xid_rep_window) (replies_of cl.clt_nonce s.reply_window)).state
              ≡ fresh))

module _ {App A R : Type 0} {ca : Codec A} {cr : Codec R} {ea : A → List ℕ} {er : R → List ℕ}
    {ra : A → Type 0} {rr : R → Type 0} (la : Lawful ca ea ra) (lr : Lawful cr er rr) where
  -- What a call needs: the client is bound to this instance of the server, or has none and calls bind,
  -- the request is a new one,
  -- its counters are unsigned ints, the method is registered, arguments and result fit a buffer, the
  -- status is not negative, and the connection lives.
  pub record Callable (a0 : A) (r0 : R) (meth : Method App A R) (cl : Client) (s : Server App)
      (proc c : ℕ) (a : A) : Type 0 where
    pub allowed : (proc == bind_proc) ≡ not cl.bind_done
    pub is_new : IsNew cl s c
    pub current : (not (cl.srv_nonce == 0) && not (cl.srv_nonce == s.nonce)) ≡ false
    pub range : ReqInRange (request_header proc cl)
    pub registered : find proc s.procs ≡ some (handler ca cr a0 r0 meth)
    pub args : ra a
    pub result : rr (meth s.app a r0).2
    pub args_room : 24 + length (ea a) ≤ max_fill
    pub result_room : 24 + length (er (meth s.app a r0).2) ≤ max_fill
    pub status : (meth s.app a r0).1 < 2 ^ 31
    pub alive : s.dead c ≡ false
    pub referenced : 0 < s.refs c

  -- What dispatch makes of a request that arrives and is a new one.
  pub record Served (a0 : A) (r0 : R) (meth : Method App A R) (cl : Client) (s : Server App)
      (mem2 : Mem) (proc c : ℕ) (a : A) (b : Mem) (n : ℕ) : Type 0 where
    pub after : Server App
    pub reply : Marshall
    pub gap : List ℕ
    pub run : dispatch mem2 c b n s ≡ some after
    pub app : after.app ≡ (meth s.app a r0).0
    pub sent_ : after.sent ≡ s.sent ++ (c, some (memory reply), reply.ind) ∷ []
    pub message :
        IsMessage
          (memory reply)
          reply.ind
          (encode_reply (record { xid = cl.xid; ret = (meth s.app a r0).1 }) ++ gap)
          (er (meth s.app a r0).2)

  served :
      (a0 : A) (r0 : R) (meth : Method App A R) (cl : Client) (s : Server App) (mem2 : Mem)
      (proc c : ℕ) (a : A) (b : Mem) (n : ℕ)
      → Arrives la lr a0 r0 meth s c (request_header proc cl) a b n
      → IsNew cl s c
      → Served a0 r0 meth cl s mem2 proc c a b n
  served a0 r0 meth cl s mem2 proc c a b n k (inl z) =
      let (t, m, gap, run, app, sent_, reply, refs, window) =
        dispatch_plain la lr a0 r0 meth s mem2 c (request_header proc cl) a b n k z in
      record {
        after = t;
        reply = m;
        gap = gap;
        run = run;
        app = app;
        sent_ = sent_;
        message = reply;
      }
  served a0 r0 meth cl s mem2 proc c a b n k (inr (z, inl known, st)) =
      let (t, m, gap, run, app, sent_, reply, refs, window) =
        dispatch_new la lr a0 r0 meth s mem2 c (request_header proc cl) a b n k z known st in
      record {
        after = t;
        reply = m;
        gap = gap;
        run = run;
        app = app;
        sent_ = sent_;
        message = reply;
      }
  served a0 r0 meth cl s mem2 proc c a b n k (inr (z, inr unknown, st)) =
      let (t, m, gap, run, app, sent_, reply, refs) =
        dispatch_first la lr a0 r0 meth s mem2 c (request_header proc cl) a b n k z unknown st in
      record {
        after = t;
        reply = m;
        gap = gap;
        run = run;
        app = app;
        sent_ = sent_;
        message = reply;
      }

  -- A remote call is a call: for a client that is bound to this instance of the server, or has no
  -- instance yet and calls bind, whose request is a new one to the server (at-most-once is not asked
  -- for, or the client has sent on this connection or not at all before, and its window has no such
  -- request), a registered method with codecs that read back what they write, arguments and a result
  -- that are in range and fit a buffer, a status that is not negative, and a live connection, the
  -- client's request makes the server run the method once on the client's arguments and send one
  -- reply, and that reply makes the client's call return the status and the result.
  pub call_lem :
      (a0 : A) (r0 old : R) (meth : Method App A R) (cl : Client) (s : Server App) (mem1 mem2 : Mem)
      (junk proc c : ℕ) (a : A)
      → Callable a0 r0 meth cl s proc c a
      → (m : Marshall) × (m' : Marshall) × (cl' : Client) × (t : Server App) × (start_call ca mem1 a
            junk proc cl
          ≡ some (sent (request_header proc cl) m cl'))
        × (dispatch mem2 c (memory m) m.ind s ≡ some t)
        × (t.app ≡ (meth s.app a r0).0)
        × (t.sent ≡ s.sent ++ (c, some (memory m'), m'.ind) ∷ [])
        × (finish_call cr old cl.xid (memory m') m'.ind cl'
            ≡ some ((meth s.app a r0).1, (meth s.app a r0).2))
  call_lem a0 r0 old meth cl s mem1 mem2 junk proc c a k =
      let (m, cl', ca', started, pending, waiting, size, msg) =
        start_call_lem la mem1 a junk proc cl k.allowed k.args_room in
      let arrives : Arrives la lr a0 r0 meth s c (request_header proc cl) a (memory m) m.ind =
        record {
          range = k.range;
          message = msg;
          small = omega (arith, size, k.args_room);
          args = k.args;
          current = k.current;
          registered = k.registered;
          status = ground (arith, k.status);
          room = k.result_room;
          alive = k.alive;
          referenced = k.referenced;
        } in
      let v = served a0 r0 meth cl s mem2 proc c a (memory m) m.ind arrives k.is_new in
      (
        m,
        v.reply,
        cl',
        v.after,
        started,
        v.run,
        v.app,
        v.sent_,
        finish_call_lem lr (memory v.reply) v.reply.ind
            (record { xid = cl.xid; ret = (meth s.app a r0).1 }) v.gap cl' ca' (meth s.app a r0).2
            old k.range.xid k.status (omega (arith, v.message.size, k.result_room)) k.result
            v.message pending waiting,
      )
