-- ===== src/Rpc/Bind.antt =====
-- rpcc::bind, from the client to the server and back (rpc/rpc.cc).
use ds.Base.{
  ℕ, ◌^◌, ◌<◌, ◌≡◌, refl, true, false, [], ◌∷◌, ◌++◌, Option, some, arith, ◌>>=◌, Mem, find,
}
use ds.Rpc.Marshall.{Marshall}
use ds.Rpc.Marshall.Writes.{memory}
use ds.Rpc.Codec.{u32}
use ds.Rpc.Codec.Laws.{u32-Lawful}
use ds.Rpc.Message.{ReqInRange}
use ds.Rpc.Client.{Client, sent, request_header, bind_proc, end_bind, end_call, got_pdu}
use ds.Rpc.Call.{start_call, finish_call, Callable, IsNew, call_lem}
use ds.Rpc.Server.{Server, dispatch}
use ds.Rpc.Server.Handler.{handler}
use ds.Rpc.Server.Setup.{rpcbind_method}

-- bind when the reply in the `n` bytes at `b` comes: what it returns, and the client.
unfoldable pub finish_bind : ℕ → ℕ → Mem → ℕ → Client → Option (ℕ × Client)
finish_bind junk xid b n cl = finish_call u32 junk xid b n cl >>= λ (ret, r).
    some (end_bind ret r (end_call xid (got_pdu b n cl)).1)

-- A client that is not bound binds to a server that the constructor of rpcs set up: `s` is that server,
-- whatever was registered, served and counted since, as long as it has bind and its nonce.
pub record Bindable {App : Type 0} (cl : Client) (s : Server App) (junk c : ℕ) : Type 0 where
  pub unbound : cl.bind_done ≡ false
  pub nowhere : cl.srv_nonce ≡ 0
  pub is_new : IsNew cl s c
  pub range : ReqInRange (request_header bind_proc cl)
  pub nonce : s.nonce < 2 ^ 32
  pub registered :
      find bind_proc s.procs ≡ some (handler u32 u32 junk junk (rpcbind_method s.nonce))
  pub alive : s.dead c ≡ false
  pub referenced : 0 < s.refs c

-- A client that is not bound and calls bind, on a live connection to a server that has the handler of
-- bind, with a request that is a new one to the server, sends one request; dispatch of it leaves the
-- object of the server as it was and sends one reply; and with that reply bind returns 0, and the client
-- is bound to this instance of the server.
pub bind_lem :
    {App : Type 0} (cl : Client) (s : Server App) (mem1 mem2 : Mem) (junk local c : ℕ)
    → Bindable cl s junk c
    → (m : Marshall) × (m' : Marshall) × (cl' : Client) × (t : Server App) × (d : Client)
      × (start_call u32 mem1 0 local bind_proc cl ≡ some (sent (request_header bind_proc cl) m cl'))
      × (dispatch mem2 c (memory m) m.ind s ≡ some t)
      × (t.app ≡ s.app)
      × (t.sent ≡ s.sent ++ (c, some (memory m'), m'.ind) ∷ [])
      × (finish_bind local cl.xid (memory m') m'.ind cl' ≡ some (0, d))
      × (d.bind_done ≡ true)
      × (d.srv_nonce ≡ s.nonce)
unfolding finish_bind end_bind
bind_lem cl s mem1 mem2 junk local c k =
    let callable : Callable u32-Lawful u32-Lawful junk junk (rpcbind_method s.nonce) cl s bind_proc
        c 0 =
      record {
        allowed = ground (arith, k.unbound);
        is_new = k.is_new;
        current = ground (arith, k.nowhere);
        range = k.range;
        registered = k.registered;
        args = omega arith;
        result = k.nonce;
        args_room = omega arith;
        result_room = omega arith;
        status = omega arith;
        alive = k.alive;
        referenced = k.referenced;
      } in
    let (m, m', cl', t, a, b, e, f, g) =
      call_lem u32-Lawful u32-Lawful junk junk local (rpcbind_method s.nonce) cl s mem1 mem2 local
        bind_proc c 0 callable in
    let d0 = (end_call cl.xid (got_pdu (memory m') m'.ind cl')).1 in
    (
      m,
      m',
      cl',
      t,
      record d0 { bind_done = true; srv_nonce = s.nonce },
      a,
      b,
      e,
      f,
      ground (arith, g),
      refl,
      refl,
    )
