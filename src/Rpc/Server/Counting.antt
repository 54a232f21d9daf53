-- ===== src/Rpc/Server/Counting.antt =====
-- What dispatch does to the reference counts of connections (rpc/rpc.cc).
use ds.Base.{
  ℕ, ◌+◌, ◌≤◌, ◌≡◌, refl, sym, ◌∙◌, subst, not, ◌&&◌, [], ◌∷◌, none, some, arith, ltb, ◌==◌,
  if◌then◌else◌, ◌>>=◌, Option-cases, Bool-cases, inl, inr, Mem, Map, find, insert, find_or,
  find-insert,
}
use ds.Rpc.Marshall.{Marshall, ReqHeader, marshall, pack_reply_header, take_buf}
use ds.Rpc.Unmarshall.{Unmarshall, unmarshall, unpack_req_header}
use ds.Rpc.Window.{
  Checked, RpcState, fresh, in_progress, done, forgotten, checkduplicate_and_update, add_reply,
}
use ds.Rpc.Server.{
  Server, HandlerFn, decref, send, updatestat, counted, send_status, save_connection,
  latest_connection, deliver, execute, answer, serve, route, dispatch, saved_buf, oldsrv_failure,
  atmostonce_failure,
}

-- How many entries of conns_ are the connection `d`.
abbrev pub uses : ℕ → Map ℕ → ℕ
uses d [] = 0
uses d ((k, c) ∷ m) = (if c == d then 1 else 0) + uses d m

-- The keys ascend.
abbrev pub Sorted : Map ℕ → Type 0
Sorted [] = Unit
Sorted ((k, c) ∷ m) = ((j : ℕ) → j ≤ k → find j m ≡ none) × Sorted m

uses-insert :
    (d k c : ℕ) (m : Map ℕ)
    → Sorted m
    → uses d (insert k c m) + (elim (find k m) [ none ↦ 0 | some b ↦ if b == d then 1 else 0 ])
      ≡ uses d m + (if c == d then 1 else 0)
unfolding find insert
uses-insert d k c [] h = ground arith
uses-insert d k c ((j, b) ∷ m) h = ground (arith, h.0 k, uses-insert d k c m h.1)

pub insert-Sorted : (k c : ℕ) (m : Map ℕ) → Sorted m → Sorted (insert k c m)
unfolding find insert
insert-Sorted k c [] h = (λ j l. refl, tt)
insert-Sorted k c ((j, b) ∷ m) h = elim (Bool-cases (j == k)) [
  | inl e ↦ rw e (λ i l. h.0 i (ground arith), h.1)
  | inr e ↦ elim (Bool-cases (ltb k j)) [
    | inl l ↦ rw (e, l) (λ i q. ground (arith, h.0 i), h)
    | inr l ↦ rw (e, l) (λ i q. ground (arith, h.0 i, find-insert k i c m), insert-Sorted k c m h.1)
  ]
]

module _ {App : Type 0} where
  -- Behind some code that gives up one reference to `c`, and takes or gives up others as conns_ changes:
  -- no count is lower than that makes it.
  pub record Kept (c : ℕ) (s t : Server App) : Type 0 where
    pub refs :
        (d : ℕ) → s.refs d + uses d t.conns ≤ t.refs d + uses d s.conns + (if c == d then 1 else 0)
    pub sorted : Sorted s.conns → Sorted t.conns

  -- The same of code that goes on with the connection `c'`.
  record Moved (c c' : ℕ) (s t : Server App) : Type 0 where
    counts : (d : ℕ) → s.refs d + (if c' == d then 1 else 0) ≤ t.refs d + (if c == d then 1 else 0)
    same : t.conns ≡ s.conns

  decref_lem :
      (c : ℕ) (s t : Server App)
      → decref c s ≡ some t
      → (t.conns ≡ s.conns) × ((d : ℕ) → s.refs d ≤ t.refs d + (if c == d then 1 else 0))
  decref_lem c s t e = (ground arith, λ d. ground arith)

  latest_connection-Moved :
      (k c c' : ℕ) (s t : Server App) → latest_connection k c s ≡ some (c', t) → Moved c c' s t
  unfolding latest_connection
  latest_connection-Moved k c c' s t e = elim (Option-cases (find k s.conns)) [
    | inl n ↦ record { counts = λ d. ground arith; same = ground arith }
    | inr (b, n) ↦ elim (Bool-cases (s.dead c && not (c == b))) [
      | inr q ↦ record { counts = λ d. ground arith; same = ground arith }
      | inl q ↦ record { counts = λ d. ground arith; same = ground arith }
    ]
  ]

  deliver-Moved :
      (c c' : ℕ) (h : ReqHeader) (app : App) (ret : ℕ) (rep : Marshall) (s t : Server App)
      → deliver c h app ret rep s ≡ some (c', t)
      → Moved c c' s t
  unfolding deliver
  deliver-Moved c c' h app ret rep s t e =
      elim (Option-cases (pack_reply_header (record { xid = h.xid; ret = ret }) rep)) [
        | inl n ↦ absurd (ground arith)
        | inr (m, p) ↦
            let r = take_buf m in
            let s1 : Server App = record s {
              app = app;
              reply_window =
                  if ltb 0 h.clt_nonce
                  then add_reply h.clt_nonce h.xid r.0.0 r.0.1 s.reply_window
                  else s.reply_window;
            } in
            elim (Option-cases (latest_connection h.clt_nonce c s1)) [
              | inl q ↦ absurd (ground arith)
              | inr ((c2, s2), q) ↦
                  let v = latest_connection-Moved h.clt_nonce c c2 s1 s2 q in
                  record { counts = λ d. ground (arith, v.counts d); same = ground (arith, v.same) }
            ]
      ]

  execute-Moved :
      (f : HandlerFn App) (fresh_mem : Mem) (c c' : ℕ) (h : ReqHeader) (req : Unmarshall)
      (s t : Server App)
      → execute f fresh_mem c h req s ≡ some (c', t)
      → Moved c c' s t
  unfolding execute updatestat
  execute-Moved f fresh_mem c c' h req s t e =
      elim (Option-cases (f s.app req (marshall fresh_mem))) [
        | inl n ↦ absurd (ground arith)
        | inr ((app, ret, rep), n) ↦
            let v = deliver-Moved c c' h app ret rep (counted h.proc s) t (ground arith) in
            record { counts = λ d. ground (arith, v.counts d); same = ground (arith, v.same) }
      ]

  -- What runs up to the last decref, and that.
  Moved-Kept :
      (c c' : ℕ) (s s1 t : Server App) → Moved c c' s s1 → decref c' s1 ≡ some t → Kept c s t
  Moved-Kept c c' s s1 t v e =
      let (same, counts) = decref_lem c' s1 t e in
      record {
        refs = λ d. ground (arith, v.counts d, counts d, v.same);
        sorted = λ h. subst Sorted (sym (same ∙ v.same)) h;
      }

  execute-Kept :
      (f : HandlerFn App) (fresh_mem : Mem) (c : ℕ) (h : ReqHeader) (req : Unmarshall)
      (s t : Server App)
      → (execute f fresh_mem c h req s >>= λ (c', s1). decref c' s1) ≡ some t
      → Kept c s t
  execute-Kept f fresh_mem c h req s t e = elim (Option-cases (execute f fresh_mem c h req s)) [
    | inl n ↦ absurd (ground arith)
    | inr ((c', s1), n) ↦
        Moved-Kept c c' s s1 t (execute-Moved f fresh_mem c c' h req s s1 n) (ground arith)
  ]

  refl-Moved : (c : ℕ) (s t : Server App) → t.conns ≡ s.conns → t.refs ≡ s.refs → Moved c c s t
  refl-Moved c s t e f = record { counts = λ d. ground arith; same = e }

  send_status-Moved :
      (fresh_mem : Mem) (c xid ret : ℕ) (s t : Server App)
      → send_status fresh_mem c xid ret s ≡ some t
      → Moved c c s t
  unfolding send_status
  send_status-Moved fresh_mem c xid ret s t e =
      elim (Option-cases
        (pack_reply_header (record { xid = xid; ret = ret }) (marshall fresh_mem))) [
          | inl n ↦ absurd (ground arith)
          | inr (m, p) ↦ record { counts = λ d. ground arith; same = ground arith }
        ]

  answer-Kept :
      (f : HandlerFn App) (fresh_mem : Mem) (c : ℕ) (h : ReqHeader) (req : Unmarshall)
      (k : Checked Mem) (st : RpcState) (s t : Server App)
      → k.state ≡ st
      → answer f fresh_mem c h req k s ≡ some t
      → Kept c s t
  unfolding answer
  answer-Kept f fresh_mem c h req k fresh s t q e =
      execute-Kept f fresh_mem c h req s t (ground arith)
  answer-Kept f fresh_mem c h req k in_progress s t q e =
      Moved-Kept c c s s t (refl-Moved c s s refl refl) (ground arith)
  answer-Kept f fresh_mem c h req k done s t q e =
      let r = saved_buf k.saved in
      Moved-Kept c c s (send c r.0 r.1 s) t (refl-Moved c s (send c r.0 r.1 s) refl refl)
        (ground arith)
  answer-Kept f fresh_mem c h req k forgotten s t q e =
      elim (Option-cases (send_status fresh_mem c h.xid atmostonce_failure s)) [
        | inl n ↦ absurd (ground arith)
        | inr (s1, n) ↦
            Moved-Kept c c s s1 t (send_status-Moved fresh_mem c h.xid atmostonce_failure s s1 n)
              (ground arith)
      ]

  save_connection-Sorted :
      (k c : ℕ) (s t : Server App)
      → save_connection k c s ≡ some t
      → Sorted s.conns
      → Sorted t.conns × ((d : ℕ) → s.refs d + uses d t.conns ≤ t.refs d + uses d s.conns)
  unfolding save_connection
  save_connection-Sorted k c s t e h = elim (Option-cases (find k s.conns)) [
    | inl n ↦
        let tc : t.conns ≡ insert k c s.conns = ground arith in
        (
          subst Sorted (sym tc) (insert-Sorted k c s.conns h),
          λ d. ground (arith, uses-insert d k c s.conns h),
        )
    | inr (b, n) ↦ elim (Bool-cases (b == c)) [
      | inl q ↦
          let tc : t.conns ≡ s.conns = ground arith in (subst Sorted (sym tc) h, λ d. ground arith)
      | inr q ↦
          let tc : t.conns ≡ insert k c s.conns = ground arith in
          (
            subst Sorted (sym tc) (insert-Sorted k c s.conns h),
            λ d. ground (arith, uses-insert d k c s.conns h),
          )
    ]
  ]

  serve-Kept :
      (f : HandlerFn App) (fresh_mem : Mem) (c : ℕ) (h : ReqHeader) (req : Unmarshall)
      (s t : Server App)
      → serve f fresh_mem c h req s ≡ some t
      → Sorted s.conns
      → Kept c s t
  unfolding serve
  serve-Kept f fresh_mem c h req s t e sorted = elim (Bool-cases (h.clt_nonce == 0)) [
    | inl z ↦ execute-Kept f fresh_mem c h req s t (ground arith)
    | inr z ↦
        let w = insert h.clt_nonce (find_or [] h.clt_nonce s.reply_window) s.reply_window in
        let s1 : Server App = record s { reply_window = w } in
        elim (Option-cases (save_connection h.clt_nonce c s1)) [
          | inl n ↦ absurd (ground arith)
          | inr (s2, n) ↦
              let (sorted2, counts) = save_connection-Sorted h.clt_nonce c s1 s2 n sorted in
              let k = checkduplicate_and_update h.clt_nonce h.xid h.xid_rep s2.reply_window in
              let v =
                answer-Kept f fresh_mem c h req k.0 k.0.state (record s2 { reply_window = k.1 }) t
                  refl (ground arith) in
              record {
                refs = λ d. ground (arith, v.refs d, counts d);
                sorted = λ _. v.sorted sorted2;
              }
        ]
  ]

  decref-Kept : (c : ℕ) (s t : Server App) → decref c s ≡ some t → Kept c s t
  decref-Kept c s t e = Moved-Kept c c s s t (refl-Moved c s s refl refl) e

  still-Kept : (c : ℕ) (s t : Server App) → Moved c c s t → Kept c s t
  still-Kept c s t v = record {
    refs = λ d. ground (arith, v.counts d, v.same);
    sorted = λ h. subst Sorted (sym v.same) h;
  }

  route-Kept :
      (fresh_mem : Mem) (c : ℕ) (h : ReqHeader) (req : Unmarshall) (s t : Server App)
      → route fresh_mem c h req s ≡ some t
      → Sorted s.conns
      → Kept c s t
  unfolding route
  route-Kept fresh_mem c h req s t e sorted = elim (Bool-cases req.ok) [
    | inr o ↦ decref-Kept c s t (ground arith)
    | inl o ↦ elim (Bool-cases (not (h.srv_nonce == 0) && not (h.srv_nonce == s.nonce))) [
      | inl n ↦
          still-Kept c s t (send_status-Moved fresh_mem c h.xid oldsrv_failure s t (ground arith))
      | inr n ↦ elim (Option-cases (find h.proc s.procs)) [
        | inl p ↦ decref-Kept c s t (ground arith)
        | inr (f, p) ↦ serve-Kept f fresh_mem c h req s t (ground arith) sorted
      ]
    ]
  ]

  pub dispatch-Kept :
      (fresh_mem : Mem) (c : ℕ) (b : Mem) (sz : ℕ) (s t : Server App)
      → dispatch fresh_mem c b sz s ≡ some t
      → Sorted s.conns
      → Kept c s t
  unfolding dispatch
  dispatch-Kept fresh_mem c b sz s t e sorted =
      let r = unpack_req_header (unmarshall b sz) in route-Kept fresh_mem c r.0 r.1 s t e sorted
