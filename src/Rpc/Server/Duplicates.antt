-- ===== src/Rpc/Server/Duplicates.antt =====
-- dispatch for clients that ask for at-most-once, and where the code is in error.
use ds.Base.{
  ℕ, ◌+◌, ◌-◌, ◌<◌, ◌≡◌, ◌≢◌, refl, ap, ◌∙◌, true, false, inl, inr, ◌&&◌, not, List, [], ◌∷◌, ◌++◌,
  Option, none, some, arith, Option-cases, ltb, ◌==◌, if◌then◌else◌, Mem, Map, update, find, insert,
  find_or, find-insert,
}
use ds.Rpc.Marshall.{Marshall, ReqHeader, marshall, pack_reply_header}
use ds.Rpc.Marshall.Writes.{memory}
use ds.Rpc.Unmarshall.{Unmarshall, unmarshall}
use ds.Rpc.Message.{IsMessage, encode_req, encode_reply, ReqInRange, unpack_req_header_lem}
use ds.Rpc.Message.Packing.{status-IsMessage}
use ds.Rpc.Codec.{Codec}
use ds.Rpc.Codec.Laws.{Lawful}
use ds.Rpc.Window.{Reply, fresh, done, check, fill, checkduplicate_and_update, add_reply}
use ds.Rpc.Server.{
  Server, oldsrv_failure, HandlerFn, send, save_connection, answer, serve, route, dispatch,
  send_status, deliver, execute, counted, updatestat, latest_connection, incref,
}
use ds.Rpc.Server.Handler.{Method}
use ds.Rpc.Server.Dispatch.{Arrives, execute_lem, dispatch-serve}

-- The list of a client in the window.
abbrev pub replies_of : ℕ → Map (List (Reply Mem)) → List (Reply Mem)
replies_of clt_nonce w = find_or [] clt_nonce w

find_or-insert :
    (k j : ℕ) (v : List (Reply Mem)) (w : Map (List (Reply Mem)))
    → find_or [] j (insert k v w) ≡ (if k == j then v else find_or [] j w)
unfolding find_or
find_or-insert k j v w = ground (arith, find-insert k j v w)

module _ {App : Type 0} where
  -- The window after check on the list of a client.
  abbrev checked_window : ReqHeader → Server App → Map (List (Reply Mem))
  checked_window h s =
      insert h.clt_nonce (check h.xid h.xid_rep (replies_of h.clt_nonce s.reply_window)).list
        (insert h.clt_nonce (replies_of h.clt_nonce s.reply_window) s.reply_window)

  replies_of-add_reply :
      (h : ReqHeader) (s : Server App) (b : Option Mem) (sz : ℕ)
      → h.clt_nonce ≢ 0
      → replies_of h.clt_nonce (
          if ltb 0 h.clt_nonce
          then add_reply h.clt_nonce h.xid b sz (checked_window h s)
          else checked_window h s)
        ≡ fill h.xid b sz (check h.xid h.xid_rep (replies_of h.clt_nonce s.reply_window)).list
  unfolding add_reply
  replies_of-add_reply h s b sz z =
      let l = (check h.xid h.xid_rep (replies_of h.clt_nonce s.reply_window)).list in
      let w = insert h.clt_nonce (replies_of h.clt_nonce s.reply_window) s.reply_window in
      ground (
        arith,
        find_or-insert h.clt_nonce h.clt_nonce
            (fill h.xid b sz (find_or [] h.clt_nonce (insert h.clt_nonce l w)))
            (insert h.clt_nonce l w),
        find_or-insert h.clt_nonce h.clt_nonce l w,
      )

  dispatch-route :
      (s : Server App) (fresh_mem : Mem) (c : ℕ) (h : ReqHeader) (body : List ℕ) (b : Mem) (n : ℕ)
      → ReqInRange h
      → IsMessage b n (encode_req h) body
      → dispatch fresh_mem c b n s ≡ route fresh_mem c h (record (unmarshall b n) { ind = 24 }) s
  unfolding dispatch
  dispatch-route s fresh_mem c h body b n range msg =
      ap (λ (p : ReqHeader × Unmarshall). route fresh_mem c p.0 p.1 s)
        (unpack_req_header_lem b n h body range msg).0

  route-serve :
      (f : HandlerFn App) (fresh_mem : Mem) (c : ℕ) (h : ReqHeader) (req : Unmarshall)
      (s : Server App)
      → req.ok ≡ true
      → (not (h.srv_nonce == 0) && not (h.srv_nonce == s.nonce)) ≡ false
      → find h.proc s.procs ≡ some f
      → route fresh_mem c h req s ≡ serve f fresh_mem c h req s
  unfolding route
  route-serve f fresh_mem c h req s o current reg = ground arith

  serve-answer :
      (f : HandlerFn App) (fresh_mem : Mem) (c : ℕ) (h : ReqHeader) (req : Unmarshall)
      (s : Server App)
      → h.clt_nonce ≢ 0
      → find h.clt_nonce s.conns ≡ some c
      → serve f fresh_mem c h req s
        ≡ answer f fresh_mem c h req
            (check h.xid h.xid_rep (replies_of h.clt_nonce s.reply_window))
            (record s { reply_window = checked_window h s })
  unfolding serve save_connection checkduplicate_and_update
  serve-answer f fresh_mem c h req s z k = ground (
    arith,
    find_or-insert h.clt_nonce h.clt_nonce (replies_of h.clt_nonce s.reply_window) s.reply_window,
  )

  -- The server when a client is new: it has a list and a connection.
  abbrev pub introduced : ReqHeader → ℕ → Server App → Server App
  introduced h c s = record (incref c s) {
    conns = insert h.clt_nonce c s.conns;
    reply_window = checked_window h s;
  }

  serve-introduced :
      (f : HandlerFn App) (fresh_mem : Mem) (c : ℕ) (h : ReqHeader) (req : Unmarshall)
      (s : Server App)
      → h.clt_nonce ≢ 0
      → find h.clt_nonce s.conns ≡ none
      → serve f fresh_mem c h req s
        ≡ answer f fresh_mem c h req
            (check h.xid h.xid_rep (replies_of h.clt_nonce s.reply_window))
            (introduced h c s)
  unfolding serve save_connection checkduplicate_and_update
  serve-introduced f fresh_mem c h req s z k = ground (
    arith,
    find_or-insert h.clt_nonce h.clt_nonce (replies_of h.clt_nonce s.reply_window) s.reply_window,
  )

  -- A message of a known client on its connection, for a registered procedure of this server, whose
  -- request is DONE, is answered with the saved pointer and size: the method does not run, so that
  -- the object stays, and the reference to the connection is given up.
  pub dispatch_duplicate :
      (s : Server App) (fresh_mem : Mem) (c : ℕ) (h : ReqHeader) (body : List ℕ) (b : Mem) (n : ℕ)
      (f : HandlerFn App) (buf : Option Mem) (sz : ℕ)
      → ReqInRange h
      → IsMessage b n (encode_req h) body
      → (not (h.srv_nonce == 0) && not (h.srv_nonce == s.nonce)) ≡ false
      → find h.proc s.procs ≡ some f
      → h.clt_nonce ≢ 0
      → find h.clt_nonce s.conns ≡ some c
      → 0 < s.refs c
      → (check h.xid h.xid_rep (replies_of h.clt_nonce s.reply_window)).state ≡ done
      → (check h.xid h.xid_rep (replies_of h.clt_nonce s.reply_window)).saved ≡ some (buf, sz)
      → (t : Server App) × (dispatch fresh_mem c b n s ≡ some t)
        × (t.app ≡ s.app)
        × (t.sent ≡ s.sent ++ (c, buf, sz) ∷ [])
        × (t.refs c + 1 ≡ s.refs c)
  unfolding answer
  dispatch_duplicate s fresh_mem c h body b n f buf sz range msg current reg z k refs st saved = (
    record s {
      reply_window = checked_window h s;
      sent = s.sent ++ (c, buf, sz) ∷ [];
      refs = update s.refs c (s.refs c - 1);
    },
    dispatch-route s fresh_mem c h body b n range msg
        ∙ route-serve f fresh_mem c h (record (unmarshall b n) { ind = 24 }) s refl current reg
        ∙ serve-answer f fresh_mem c h (record (unmarshall b n) { ind = 24 }) s z k
        ∙ ground arith,
    refl,
    refl,
    ground arith,
  )

  -- A message whose request names another instance of the server, and not 0, is answered with
  -- oldsrv_failure and runs no method, but the reference that got_pdu took is never given up.
  pub dispatch_old_server :
      (s : Server App) (fresh_mem : Mem) (c : ℕ) (h : ReqHeader) (body : List ℕ) (b : Mem) (n : ℕ)
      → ReqInRange h
      → IsMessage b n (encode_req h) body
      → h.srv_nonce ≢ 0
      → h.srv_nonce ≢ s.nonce
      → (t : Server App) × (m : Marshall) × (gap : List ℕ) × (dispatch fresh_mem c b n s ≡ some t)
        × (t.sent ≡ s.sent ++ (c, some (memory m), m.ind) ∷ [])
        × IsMessage
            (memory m)
            m.ind
            (encode_reply (record { xid = h.xid; ret = oldsrv_failure }) ++ gap)
            []
        × (t.app ≡ s.app)
        × (t.refs ≡ s.refs)
  unfolding route send_status
  dispatch_old_server s fresh_mem c h body b n range msg z k =
      let (m, gap, packed, alloc, size, reply) =
        status-IsMessage fresh_mem (record { xid = h.xid; ret = oldsrv_failure }) in
      (
        send c (some (memory m)) m.ind s,
        m,
        gap,
        dispatch-route s fresh_mem c h body b n range msg ∙ ground (arith, packed, alloc),
        refl,
        reply,
        refl,
        refl,
      )

  deliver_fault :
      (s : Server App) (c : ℕ) (h : ReqHeader) (app : App) (ret : ℕ) (w : Marshall)
      → h.clt_nonce ≡ 0
      → find 0 s.conns ≡ none
      → s.dead c ≡ true
      → deliver c h app ret w s ≡ none
  unfolding deliver latest_connection
  deliver_fault s c h app ret w z k dead =
      ground (arith, Option-cases (pack_reply_header (record { xid = h.xid; ret = ret }) w))

  serve_fault :
      (f : HandlerFn App) (fresh_mem : Mem) (c : ℕ) (h : ReqHeader) (req : Unmarshall)
      (s : Server App)
      → h.clt_nonce ≡ 0
      → find 0 s.conns ≡ none
      → s.dead c ≡ true
      → serve f fresh_mem c h req s ≡ none
  unfolding serve execute updatestat
  serve_fault f fresh_mem c h req s z k dead =
      let e : find 0 (counted h.proc s).conns ≡ none = ground arith in
      let d : (counted h.proc s).dead c ≡ true = ground arith in
      elim (Option-cases (f s.app req (marshall fresh_mem))) [
        | inl g ↦ ground arith
        | inr ((app, ret, rep), g) ↦
            ground (arith, deliver_fault (counted h.proc s) c h app ret rep z e d)
      ]

  -- A message for a registered procedure of this server from a client that does not ask for
  -- at-most-once makes dispatch fault, whatever the procedure does, when the connection is dead and
  -- `conns_` has no entry for the nonce 0.
  pub dispatch_fault :
      (s : Server App) (fresh_mem : Mem) (c : ℕ) (h : ReqHeader) (body : List ℕ) (b : Mem) (n : ℕ)
      (f : HandlerFn App)
      → ReqInRange h
      → IsMessage b n (encode_req h) body
      → (not (h.srv_nonce == 0) && not (h.srv_nonce == s.nonce)) ≡ false
      → find h.proc s.procs ≡ some f
      → h.clt_nonce ≡ 0
      → find 0 s.conns ≡ none
      → s.dead c ≡ true
      → dispatch fresh_mem c b n s ≡ none
  dispatch_fault s fresh_mem c h body b n f range msg current reg z k dead =
      dispatch-route s fresh_mem c h body b n range msg
      ∙ route-serve f fresh_mem c h (record (unmarshall b n) { ind = 24 }) s refl current reg
      ∙ serve_fault f fresh_mem c h (record (unmarshall b n) { ind = 24 }) s z k dead

module _ {App A R : Type 0} {ca : Codec A} {cr : Codec R} {ea : A → List ℕ} {er : R → List ℕ}
    {ra : A → Type 0} {rr : R → Type 0} (la : Lawful ca ea ra) (lr : Lawful cr er rr) (a0 : A)
    (r0 : R) (meth : Method App A R) where
  -- A new request of a client that asks for at-most-once and has sent on this live connection before,
  -- addressed to this server, for a registered method whose status is not negative and whose result
  -- fits a buffer, runs the method once on the arguments that were sent; it sends one reply with the
  -- status and result, gives up the reference to the connection, and fills that reply into the
  -- client's list.
  pub dispatch_new :
      (s : Server App) (fresh_mem : Mem) (c : ℕ) (h : ReqHeader) (a : A) (b : Mem) (n : ℕ)
      → Arrives la lr a0 r0 meth s c h a b n
      → h.clt_nonce ≢ 0
      → find h.clt_nonce s.conns ≡ some c
      → (check h.xid h.xid_rep (replies_of h.clt_nonce s.reply_window)).state ≡ fresh
      → (t : Server App) × (m : Marshall) × (gap : List ℕ) × (dispatch fresh_mem c b n s ≡ some t)
        × (t.app ≡ (meth s.app a r0).0)
        × (t.sent ≡ s.sent ++ (c, some (memory m), m.ind) ∷ [])
        × IsMessage
            (memory m)
            m.ind
            (encode_reply (record { xid = h.xid; ret = (meth s.app a r0).1 }) ++ gap)
            (er (meth s.app a r0).2)
        × (t.refs c + 1 ≡ s.refs c)
        × (replies_of h.clt_nonce t.reply_window
            ≡ fill h.xid
                (some (memory m))
                m.ind
                (check h.xid h.xid_rep (replies_of h.clt_nonce s.reply_window)).list)
  unfolding answer
  dispatch_new s fresh_mem c h a b n r z k st =
      let s1 : Server App = record s { reply_window = checked_window h s } in
      let e =
        execute_lem la lr a0 r0 meth s1 fresh_mem c h b n a r.args r.small
          (unpack_req_header_lem b n h (ea a) r.range r.message).1 r.status r.room r.alive in
      (
        record e.after { refs = update e.after.refs c (e.after.refs c - 1) },
        e.m,
        e.gap,
        dispatch-serve la lr a0 r0 meth s fresh_mem c h a b n r
            ∙ serve-answer _ fresh_mem c h (record (unmarshall b n) { ind = 24 }) s z k
            ∙ ground (arith, e.done, r.referenced, ap (λ (f : ℕ → ℕ). f c) e.refs),
        e.app,
        e.sent,
        e.reply,
        ground (arith, r.referenced, ap (λ (f : ℕ → ℕ). f c) e.refs),
        ap (replies_of h.clt_nonce) e.window
            ∙ replies_of-add_reply h s (some (memory e.m)) e.m.ind z,
      )

  -- The first request of a client that asks for at-most-once, under the same conditions: the same, and
  -- the server keeps a reference to the connection, as the latest one of the client.
  pub dispatch_first :
      (s : Server App) (fresh_mem : Mem) (c : ℕ) (h : ReqHeader) (a : A) (b : Mem) (n : ℕ)
      → Arrives la lr a0 r0 meth s c h a b n
      → h.clt_nonce ≢ 0
      → find h.clt_nonce s.conns ≡ none
      → (check h.xid h.xid_rep (replies_of h.clt_nonce s.reply_window)).state ≡ fresh
      → (t : Server App) × (m : Marshall) × (gap : List ℕ) × (dispatch fresh_mem c b n s ≡ some t)
        × (t.app ≡ (meth s.app a r0).0)
        × (t.sent ≡ s.sent ++ (c, some (memory m), m.ind) ∷ [])
        × IsMessage
            (memory m)
            m.ind
            (encode_reply (record { xid = h.xid; ret = (meth s.app a r0).1 }) ++ gap)
            (er (meth s.app a r0).2)
        × (t.refs c ≡ s.refs c)
  unfolding answer
  dispatch_first s fresh_mem c h a b n r z k st =
      let s1 = introduced h c s in
      let e =
        execute_lem la lr a0 r0 meth s1 fresh_mem c h b n a r.args r.small
          (unpack_req_header_lem b n h (ea a) r.range r.message).1 r.status r.room r.alive in
      (
        record e.after { refs = update e.after.refs c (e.after.refs c - 1) },
        e.m,
        e.gap,
        dispatch-serve la lr a0 r0 meth s fresh_mem c h a b n r
            ∙ serve-introduced _ fresh_mem c h (record (unmarshall b n) { ind = 24 }) s z k
            ∙ ground (arith, e.done, r.referenced, ap (λ (f : ℕ → ℕ). f c) e.refs),
        e.app,
        e.sent,
        e.reply,
        ground (arith, r.referenced, ap (λ (f : ℕ → ℕ). f c) e.refs),
      )
