-- ===== src/Rpc/Server/Handler.antt =====
-- The templates rpcs::reg of rpc/rpc.h: a method of an object as a handler. A method with several
-- arguments takes the tuple of them, read by the pair of their codecs, one after another.
use ds.Base.{ℕ, ◌^◌, ◌<◌, ◌≡◌, List, some, arith, if◌then◌else◌, ◌>>=◌, Mem}
use ds.Rpc.Marshall.{Marshall}
use ds.Rpc.Unmarshall.{unmarshall, okdone}
use ds.Rpc.Unmarshall.Reads.{Remains}
use ds.Rpc.Codec.Laws.{Lawful}
use ds.Rpc.Message.{body_lem}
use ds.Rpc.Codec.{Codec}
use ds.Rpc.Server.{HandlerFn, unmarshal_args_failure}

-- A method gets the object, the arguments and the result variable, and assigns the first and last.
abbrev pub Method : Type 0 → Type 0 → Type 0 → Type 0
Method App A R = App → A → R → App × ℕ × R

-- h1::fn; `a0` and `r0` are what the local variables hold before they are assigned.
unfoldable pub handler :
    {App A R : Type 0} → Codec A → Codec R → A → R → Method App A R → HandlerFn App
handler ca cr a0 r0 meth app args ret = do
  (a, args) ← ca.get a0 args
  if okdone args
      then (let (app, b, r) = meth app a r0 in cr.put r ret >>= λ ret. some (app, b, ret))
      else some (app, unmarshal_args_failure, ret)

module _ {App A R : Type 0} {ca : Codec A} (cr : Codec R) {ea : A → List ℕ} {ra : A → Type 0}
    (la : Lawful ca ea ra) where
  -- A handler that gets the arguments as they were written, and nothing more, calls the method with
  -- them and writes its result.
  pub handler_lem :
      (a0 : A) (r0 : R) (meth : Method App A R) (app : App) (a : A) (b : Mem) (n : ℕ)
      (ret : Marshall)
      → ra a
      → n < 2 ^ 31
      → Remains (record (unmarshall b n) { ind = 24 }) (ea a)
      → handler ca cr a0 r0 meth app (record (unmarshall b n) { ind = 24 }) ret
        ≡ (let (app', st, r) = meth app a r0 in cr.put r ret >>= λ ret'. some (app', st, ret'))
  unfolding handler okdone
  handler_lem a0 r0 meth app a b n ret h f r = rw (body_lem la b n a a0 h f r) (ground arith)
