-- ===== src/Rpc/Server/Dispatch.antt =====
-- What dispatch does with a request on each of its branches.
use ds.Base.{
  ℕ, ◌+◌, ◌-◌, ◌^◌, ◌≤◌, ◌<◌, ◌≡◌, refl, ap, ◌∙◌, false, ◌&&◌, not, List, [], ◌∷◌, ◌++◌, Option,
  some, arith, inl, inr, Option-cases, ltb, ◌==◌, if◌then◌else◌, ◌>>=◌, Mem, update, find, length,
}
use ds.Rpc.Marshall.{Marshall, ReqHeader, ReplyHeader, marshall, pack_reply_header, take_buf}
use ds.Rpc.Marshall.Writes.{memory, max_fill}
use ds.Rpc.Unmarshall.{Unmarshall, unmarshall}
use ds.Rpc.Unmarshall.Reads.{Remains}
use ds.Rpc.Codec.{Codec}
use ds.Rpc.Codec.Laws.{Lawful}
use ds.Rpc.Message.{IsMessage, encode_req, encode_reply, ReqInRange, unpack_req_header_lem}
use ds.Rpc.Message.Packing.{reply-IsMessage}
use ds.Rpc.Window.{add_reply}
use ds.Rpc.Server.{
  Server, is_negative, send, updatestat, deliver, counted, execute, serve, route, dispatch,
}
use ds.Rpc.Server.Handler.{Method, handler, handler_lem}

module _ {App A R : Type 0} {ca : Codec A} {cr : Codec R} {ea : A → List ℕ} {er : R → List ℕ}
    {ra : A → Type 0} {rr : R → Type 0} (la : Lawful ca ea ra) (lr : Lawful cr er rr) (a0 : A)
    (r0 : R) (meth : Method App A R) where
  -- A request for a registered method, addressed to this server, arrives on a live connection in a
  -- message whose reply has room in a buffer.
  pub record Arrives (s : Server App) (c : ℕ) (h : ReqHeader) (a : A) (b : Mem) (n : ℕ)
      : Type 0 where
    pub range : ReqInRange h
    pub message : IsMessage b n (encode_req h) (ea a)
    pub small : n < 2 ^ 31
    pub args : ra a
    pub current : (not (h.srv_nonce == 0) && not (h.srv_nonce == s.nonce)) ≡ false
    pub registered : find h.proc s.procs ≡ some (handler ca cr a0 r0 meth)
    pub status : is_negative (meth s.app a r0).1 ≡ false
    pub room : 24 + length (er (meth s.app a r0).2) ≤ max_fill
    pub alive : s.dead c ≡ false
    pub referenced : 0 < s.refs c

  -- The reply to the request `h` with the arguments `a`.
  pub record Replies (s : Server App) (h : ReqHeader) (a : A) (c : ℕ) (r : Option (ℕ × Server App))
      : Type 0 where
    pub m : Marshall
    pub gap : List ℕ
    pub after : Server App
    pub done : r ≡ some (c, after)
    pub reply :
        IsMessage
          (memory m)
          m.ind
          (encode_reply (record { xid = h.xid; ret = (meth s.app a r0).1 }) ++ gap)
          (er (meth s.app a r0).2)
    pub sent : after.sent ≡ s.sent ++ (c, some (memory m), m.ind) ∷ []
    pub app : after.app ≡ (meth s.app a r0).0
    pub refs : after.refs ≡ s.refs
    pub window : after.reply_window ≡ (
        if ltb 0 h.clt_nonce
        then add_reply h.clt_nonce h.xid (some (memory m)) m.ind s.reply_window
        else s.reply_window)

  counted_same :
      (proc : ℕ) (s : Server App)
      → ((counted proc s).sent ≡ s.sent)
        × ((counted proc s).refs ≡ s.refs)
        × ((counted proc s).reply_window ≡ s.reply_window)
        × ((counted proc s).dead ≡ s.dead)
  unfolding updatestat
  counted_same proc s = ground arith

  -- The state with the result of the method, and with the reply kept and sent.
  abbrev delivered : Server App → ℕ → ReqHeader → App → Mem → ℕ → Server App
  delivered s c h app b sz = send c (some b) sz (record s {
    app = app;
    reply_window =
        if ltb 0 h.clt_nonce
        then add_reply h.clt_nonce h.xid (some b) sz s.reply_window
        else s.reply_window;
  })

  deliver_lem :
      (s : Server App) (c : ℕ) (h : ReqHeader) (app : App) (ret : ℕ) (w m : Marshall) (b : Mem)
      → is_negative ret ≡ false
      → pack_reply_header (record { xid = h.xid; ret = ret }) w ≡ some m
      → m.buf ≡ some b
      → s.dead c ≡ false
      → deliver c h app ret w s ≡ some (c, delivered s c h app b m.ind)
  unfolding deliver take_buf
  deliver_lem s c h app ret w m b st p e alive = ground arith

  packed :
      (w m : Marshall) (h : ReplyHeader) {o : Option Marshall}
      → o ≡ some w
      → (o >>= pack_reply_header h) ≡ some m
      → pack_reply_header h w ≡ some m
  packed w m h e d = rw e at d

  pub execute_lem :
      (s : Server App) (fresh_mem : Mem) (c : ℕ) (h : ReqHeader) (b : Mem) (n : ℕ) (a : A)
      → ra a
      → n < 2 ^ 31
      → Remains (record (unmarshall b n) { ind = 24 }) (ea a)
      → is_negative (meth s.app a r0).1 ≡ false
      → 24 + length (er (meth s.app a r0).2) ≤ max_fill
      → s.dead c ≡ false
      → Replies s h a c (
          execute (handler ca cr a0 r0 meth) fresh_mem c h (record (unmarshall b n) { ind = 24 }) s)
  unfolding execute
  execute_lem s fresh_mem c h b n a k small r st room alive =
      let reply_h : ReplyHeader = record { xid = h.xid; ret = (meth s.app a r0).1 } in
      let (m, gap, done, alloc, size, msg) =
        reply-IsMessage lr fresh_mem (meth s.app a r0).2 reply_h room in
      let sc = counted h.proc s in
      let same = counted_same h.proc s in
      elim (Option-cases (cr.put (meth s.app a r0).2 (marshall fresh_mem))) [
        | inl e ↦ absurd (cc (done, e))
        | inr (w, e) ↦ record {
          m = m;
          gap = gap;
          after = delivered sc c h (meth s.app a r0).0 (memory m) m.ind;
          done =
              rw (handler_lem cr la a0 r0 meth s.app a b n (marshall fresh_mem) k small r, e)
                (deliver_lem sc c h (meth s.app a r0).0 (meth s.app a r0).1 w m (memory m) st
                  (packed w m reply_h e done) alloc (rw same.3 alive));
          reply = msg;
          sent =
              ap (λ (t : List (ℕ × Option Mem × ℕ)). t ++ (c, some (memory m), m.ind) ∷ []) same.0;
          app = refl;
          refs = same.1;
          window = rw same.2;
        }
      ]

  -- Such a request reaches its handler with the header and the body that were sent.
  pub dispatch-serve :
      (s : Server App) (fresh_mem : Mem) (c : ℕ) (h : ReqHeader) (a : A) (b : Mem) (n : ℕ)
      → Arrives s c h a b n
      → dispatch fresh_mem c b n s
        ≡ serve (handler ca cr a0 r0 meth) fresh_mem c h (record (unmarshall b n) { ind = 24 }) s
  unfolding dispatch route
  dispatch-serve s fresh_mem c h a b n r =
      ap (λ (p : ReqHeader × Unmarshall). route fresh_mem c p.0 p.1 s)
        (unpack_req_header_lem b n h (ea a) r.range r.message).0
      ∙ rw (r.current, r.registered)

  -- A request of a client that does not ask for at-most-once, on a live connection, addressed to this
  -- server, for a registered method whose status is not negative and whose result fits a buffer, runs
  -- the method once on the arguments that were sent, sends one reply with its status and result back
  -- on the connection, gives up the reference to it, and leaves the window of replies alone.
  pub dispatch_plain :
      (s : Server App) (fresh_mem : Mem) (c : ℕ) (h : ReqHeader) (a : A) (b : Mem) (n : ℕ)
      → Arrives s c h a b n
      → h.clt_nonce ≡ 0
      → (t : Server App) × (m : Marshall) × (gap : List ℕ) × (dispatch fresh_mem c b n s ≡ some t)
        × (t.app ≡ (meth s.app a r0).0)
        × (t.sent ≡ s.sent ++ (c, some (memory m), m.ind) ∷ [])
        × IsMessage
            (memory m)
            m.ind
            (encode_reply (record { xid = h.xid; ret = (meth s.app a r0).1 }) ++ gap)
            (er (meth s.app a r0).2)
        × (t.refs c + 1 ≡ s.refs c)
        × (t.reply_window ≡ s.reply_window)
  unfolding serve
  dispatch_plain s fresh_mem c h a b n r z =
      let e =
        execute_lem s fresh_mem c h b n a r.args r.small
          (unpack_req_header_lem b n h (ea a) r.range r.message).1 r.status r.room r.alive in
      (
        record e.after { refs = update e.after.refs c (e.after.refs c - 1) },
        e.m,
        e.gap,
        dispatch-serve s fresh_mem c h a b n r
            ∙ ground (arith, e.done, ap (λ (f : ℕ → ℕ). f c) e.refs),
        e.app,
        e.sent,
        e.reply,
        ground (arith, ap (λ (f : ℕ → ℕ). f c) e.refs),
        e.window ∙ ground arith,
      )
