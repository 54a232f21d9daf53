-- ===== src/Extent/Remote.antt =====
-- A remote call of the extent server from extent_client to the server and back (extent_client.cc,
-- extent_smain.cc, rpc/rpc.h, rpc/rpc.cc).
use ds.Base.{ℕ, ap, List, [], arith, Mem}
use ds.Rpc.Codec.Laws.{u32-Lawful, u64-Lawful, string-Lawful}
use ds.Rpc.Client.{Client}
use ds.Rpc.Call.{call_lem}
use ds.Rpc.Server.{Server}
use ds.Extent.Service.{
  Store, AttrFields, no_attr, put_method, get_method, getattr_method, remove_method, setattr_method,
  Op, put_op, get_op, getattr_op, remove_op, setattr_op, Output, proc_of, start_op, drop_result,
  finish_op,
}
use ds.Extent.Calls.{
  ready-Callable, Ready, ready-Registered, code_small, attr-Lawful, put-Lawful, setattr-Lawful,
  Remote,
}

get-Remote :
    (id : ℕ) (old : List ℕ) (cl : Client) (s : Server Store) (mem1 mem2 : Mem)
    (random junk local start c : ℕ)
    → Ready cl s random junk start c (get_op id)
    → Remote (get_op id) old cl s mem1 mem2 junk local c
unfolding start_op finish_op get_method
get-Remote id old cl s mem1 mem2 random junk local start c k =
    let o = get_op id in
    let r = ready-Registered cl s random junk start c o k in
    let q = k.output in
    let callable =
      ready-Callable u64-Lawful string-Lawful junk [] get_method cl s random junk start c o id k
        r.get_at k.args tt (omega arith) (omega (arith, q)) (code_small _) in
    let (m, m', cl', t, a, b, e, f, g) =
      call_lem u64-Lawful string-Lawful junk [] old get_method cl s mem1 mem2 local (proc_of o) c id
        callable in
    (m, m', cl', t, a, b, ap (λ (x : Store). x.extents) e, f, g)

getattr-Remote :
    (id : ℕ) (old : AttrFields) (cl : Client) (s : Server Store) (mem1 mem2 : Mem)
    (random junk local start c : ℕ)
    → Ready cl s random junk start c (getattr_op id)
    → Remote (getattr_op id) old cl s mem1 mem2 junk local c
unfolding start_op finish_op getattr_method
getattr-Remote id old cl s mem1 mem2 random junk local start c k =
    let o = getattr_op id in
    let r = ready-Registered cl s random junk start c o k in
    let q = k.output in
    let callable =
      ready-Callable u64-Lawful attr-Lawful junk (no_attr junk) getattr_method cl s random junk
        start c o id k r.getattr_at k.args q (omega arith) (omega arith) (code_small _) in
    let (m, m', cl', t, a, b, e, f, g) =
      call_lem u64-Lawful attr-Lawful junk (no_attr junk) old getattr_method cl s mem1 mem2 local
        (proc_of o) c id callable in
    (m, m', cl', t, a, b, ap (λ (x : Store). x.extents) e, f, g)

put-Remote :
    (id : ℕ) (buf : List ℕ) (old : Output (put_op id buf)) (cl : Client) (s : Server Store)
    (mem1 mem2 : Mem) (random junk local start c : ℕ)
    → Ready cl s random junk start c (put_op id buf)
    → Remote (put_op id buf) old cl s mem1 mem2 junk local c
unfolding start_op finish_op put_method
put-Remote id buf old cl s mem1 mem2 random junk local start c k =
    let o = put_op id buf in
    let r = ready-Registered cl s random junk start c o k in
    let q = k.output in
    let callable =
      ready-Callable put-Lawful u32-Lawful (junk, []) junk put_method cl s random junk start c o
        (id, buf) k r.put_at (k.args.0, tt) (omega (arith, k.int_)) (omega (arith, k.args.1))
        (omega arith) (code_small _) in
    let (m, m', cl', t, a, b, e, f, g) =
      call_lem put-Lawful u32-Lawful (junk, []) junk local put_method cl s mem1 mem2 local
        (proc_of o) c (id, buf) callable in
    (m, m', cl', t, a, b, ap (λ (x : Store). x.extents) e, f, ap drop_result g)

remove-Remote :
    (id : ℕ) (old : Output (remove_op id)) (cl : Client) (s : Server Store) (mem1 mem2 : Mem)
    (random junk local start c : ℕ)
    → Ready cl s random junk start c (remove_op id)
    → Remote (remove_op id) old cl s mem1 mem2 junk local c
unfolding start_op finish_op remove_method
remove-Remote id old cl s mem1 mem2 random junk local start c k =
    let o = remove_op id in
    let r = ready-Registered cl s random junk start c o k in
    let q = k.output in
    let callable =
      ready-Callable u64-Lawful u32-Lawful junk junk remove_method cl s random junk start c o id k
        r.remove_at k.args (omega (arith, k.int_)) (omega arith) (omega arith) (code_small _) in
    let (m, m', cl', t, a, b, e, f, g) =
      call_lem u64-Lawful u32-Lawful junk junk local remove_method cl s mem1 mem2 local (proc_of o)
        c id callable in
    (m, m', cl', t, a, b, ap (λ (x : Store). x.extents) e, f, ap drop_result g)

setattr-Remote :
    (id : ℕ) (a : AttrFields) (old : Output (setattr_op id a)) (cl : Client) (s : Server Store)
    (mem1 mem2 : Mem) (random junk local start c : ℕ)
    → Ready cl s random junk start c (setattr_op id a)
    → Remote (setattr_op id a) old cl s mem1 mem2 junk local c
unfolding start_op finish_op setattr_method
setattr-Remote id a old cl s mem1 mem2 random junk local start c k =
    let o = setattr_op id a in
    let r = ready-Registered cl s random junk start c o k in
    let q = k.output in
    let callable =
      ready-Callable setattr-Lawful u32-Lawful (junk, no_attr junk) junk setattr_method cl s random
        junk start c o (id, a) k r.setattr_at (k.args.0, k.args.1) (omega (arith, k.int_))
        (omega arith) (omega arith) (code_small _) in
    let (m, m', cl', t, a', b, e, f, g) =
      call_lem setattr-Lawful u32-Lawful (junk, no_attr junk) junk local setattr_method cl s mem1
        mem2 local (proc_of o) c (id, a) callable in
    (m, m', cl', t, a', b, ap (λ (x : Store). x.extents) e, f, ap drop_result g)

-- Each operation of extent_client, for a client that is bound to a server that main set up, whose
-- request is a new one to that server, on a live connection, and with arguments and an output that are
-- in range and fit a buffer: the server runs the operation of extent_server once on its map, with the
-- arguments of the client, and sends one reply, which makes the client return the status and the
-- output of that operation, where get gives the empty string and getattr whatever the server's variable
-- held when there is no such extent.
pub remote_lem :
    (o : Op) (old : Output o) (cl : Client) (s : Server Store) (mem1 mem2 : Mem)
    (random junk local start c : ℕ)
    → Ready cl s random junk start c o
    → Remote o old cl s mem1 mem2 junk local c
remote_lem (put_op id buf) old cl s mem1 mem2 random junk local start c k =
    put-Remote id buf old cl s mem1 mem2 random junk local start c k
remote_lem (get_op id) old cl s mem1 mem2 random junk local start c k =
    get-Remote id old cl s mem1 mem2 random junk local start c k
remote_lem (getattr_op id) old cl s mem1 mem2 random junk local start c k =
    getattr-Remote id old cl s mem1 mem2 random junk local start c k
remote_lem (remove_op id) old cl s mem1 mem2 random junk local start c k =
    remove-Remote id old cl s mem1 mem2 random junk local start c k
remote_lem (setattr_op id a) old cl s mem1 mem2 random junk local start c k =
    setattr-Remote id a old cl s mem1 mem2 random junk local start c k
