-- ===== src/Extent/Calls.antt =====
-- What a remote call of the extent server needs, and the codecs and handlers that it uses
-- (extent_client.cc, extent_smain.cc, extent_protocol.h).
use ds.Base.{
  not, ◌==◌, ℕ, ◌+◌, ◌^◌, ◌≤◌, ◌<◌, ◌≡◌, refl, ap, ◌∙◌, subst, true, false, List, [], ◌∷◌, ◌++◌,
  Option, none, some, arith, Mem, find, insert, length,
}
use ds.Rpc.Marshall.{Marshall}
use ds.Rpc.Marshall.Writes.{memory, max_fill, be32}
use ds.Rpc.Codec.{Codec, u32, u64, string}
use ds.Rpc.Codec.Laws.{
  Lawful, u32-Lawful, u64-Lawful, string-Lawful, pair-Lawful, encode_u64, encode_string,
}
use ds.Rpc.Message.{ReqInRange}
use ds.Rpc.Client.{Client, sent, request_header, bind_proc}
use ds.Rpc.Call.{current_lem, Callable, IsNew}
use ds.Rpc.Server.{Server, dispatch, reg1}
use ds.Rpc.Server.Handler.{Method, handler}
use ds.Rpc.Server.Setup.{rpcs}
use ds.Extent.{Status, Extents, put, get, getattr, setattr, remove, attr_codec}
use ds.Extent.Service.{
  Store, code, AttrFields, fields, attr_of, no_attr, put_proc, get_proc, getattr_proc, remove_proc,
  setattr_proc, put_method, get_method, getattr_method, remove_method, setattr_method, put_codec,
  setattr_codec, extent_smain, Op, put_op, get_op, getattr_op, remove_op, setattr_op, Output,
  proc_of, start_op, finish_op,
}

-- The operation on the server's map itself: the new map, the status and the output, where a variable
-- for the output holds the empty string or `junk` before.
abbrev pub direct : (o : Op) → ℕ → ℕ → Extents → Extents × ℕ × Output o
direct (put_op id buf) now junk m = let (st, m') = put now id buf m in (m', code st, tt)
direct (get_op id) now junk m = let (st, buf) = get id [] m in (m, code st, buf)
direct (getattr_op id) now junk m =
    let (st, a) = getattr id (attr_of (no_attr junk)) m in (m, code st, fields a)
direct (remove_op id) now junk m = let (st, m') = remove id m in (m', code st, tt)
direct (setattr_op id a) now junk m =
    let (st, m') = setattr now id (attr_of a) m in (m', code st, tt)

abbrev pub FieldsInRange : AttrFields → Type 0
FieldsInRange (a, (m, (c, n))) = (a < 2 ^ 32) × ((m < 2 ^ 32) × ((c < 2 ^ 32) × (n < 2 ^ 32)))

-- The arguments are of their types and fit a buffer.
abbrev pub ArgsFit : Op → Type 0
ArgsFit (put_op id buf) = (id < 2 ^ 64) × (36 + length buf ≤ max_fill)
ArgsFit (setattr_op id a) = (id < 2 ^ 64) × FieldsInRange a
ArgsFit (get_op id) = id < 2 ^ 64
ArgsFit (getattr_op id) = id < 2 ^ 64
ArgsFit (remove_op id) = id < 2 ^ 64

-- So does what the server answers.
abbrev pub OutputFits : (o : Op) → Output o → Type 0
OutputFits (get_op id) buf = 28 + length buf ≤ max_fill
OutputFits (getattr_op id) a = FieldsInRange a
OutputFits (put_op id buf) r = Unit
OutputFits (remove_op id) r = Unit
OutputFits (setattr_op id a) r = Unit

-- What a call needs of the client, the server that main set up, and the connection.
pub record Ready (cl : Client) (s : Server Store) (random junk start c : ℕ) (o : Op) : Type 0 where
  pub bound : cl.bind_done ≡ true
  pub is_new : IsNew cl s c
  pub instance_ : cl.srv_nonce ≡ s.nonce
  pub range : ReqInRange (request_header (proc_of o) cl)
  pub main : Server Store
  pub started : extent_smain random junk start ≡ some main
  pub procs : s.procs ≡ main.procs
  pub int_ : junk < 2 ^ 31
  pub alive : s.dead c ≡ false
  pub referenced : 0 < s.refs c
  pub args : ArgsFit o
  pub output : OutputFits o (direct o s.app.now junk s.app.extents).2

-- The handlers that main registers.
pub record Registered (junk : ℕ) (t : Server Store) : Type 0 where
  pub put_at : find put_proc t.procs ≡ some (handler put_codec u32 (junk, []) junk put_method)
  pub get_at : find get_proc t.procs ≡ some (handler u64 string junk [] get_method)
  pub getattr_at :
      find getattr_proc t.procs ≡ some (handler u64 attr_codec junk (no_attr junk) getattr_method)
  pub remove_at : find remove_proc t.procs ≡ some (handler u64 u32 junk junk remove_method)
  pub setattr_at :
      find setattr_proc t.procs
      ≡ some (handler setattr_codec u32 (junk, no_attr junk) junk setattr_method)

abbrev pub Main : ℕ → Option (Server Store) → Type 0
Main junk none = ⊥
Main junk (some t) = Registered junk t

pub extent_smain-Registered : (random junk start : ℕ) → Main junk (extent_smain random junk start)
unfolding extent_smain rpcs reg1 find insert
extent_smain-Registered random junk start = record {
  put_at = refl;
  get_at = refl;
  getattr_at = refl;
  remove_at = refl;
  setattr_at = refl;
}

pub ready-Registered :
    (cl : Client) (s : Server Store) (random junk start c : ℕ) (o : Op)
    → Ready cl s random junk start c o
    → Registered junk s
ready-Registered cl s random junk start c o k =
    let r = subst (Main junk) k.started (extent_smain-Registered random junk start) in
    let e = k.procs in
    record {
      put_at = ap (find put_proc) e ∙ r.put_at;
      get_at = ap (find get_proc) e ∙ r.get_at;
      getattr_at = ap (find getattr_proc) e ∙ r.getattr_at;
      remove_at = ap (find remove_proc) e ∙ r.remove_at;
      setattr_at = ap (find setattr_proc) e ∙ r.setattr_at;
    }

pub code_small : (st : Status) → code st < 2 ^ 31
code_small st = ground arith

-- The codecs of the arguments, and what they write.
abbrev pub encode_attr : AttrFields → List ℕ
encode_attr (a, (m, (c, n))) = be32 a ++ (be32 m ++ (be32 c ++ be32 n))

pub attr-Lawful : Lawful attr_codec encode_attr FieldsInRange
attr-Lawful = pair-Lawful u32-Lawful (pair-Lawful u32-Lawful (pair-Lawful u32-Lawful u32-Lawful))

pub put-Lawful :
    Lawful put_codec (λ t. encode_u64 t.0 ++ encode_string t.1) (λ t. (t.0 < 2 ^ 64) × Unit)
put-Lawful = pair-Lawful u64-Lawful string-Lawful

pub setattr-Lawful :
    Lawful setattr_codec
      (λ t. encode_u64 t.0 ++ encode_attr t.1)
      (λ t. (t.0 < 2 ^ 64) × FieldsInRange t.1)
setattr-Lawful = pair-Lawful u64-Lawful attr-Lawful

op_allowed :
    (o : Op) (cl : Client) → cl.bind_done ≡ true → (proc_of o == bind_proc) ≡ not cl.bind_done
op_allowed o cl h = ground arith

module _ {A R : Type 0} {ca : Codec A} {cr : Codec R} {ea : A → List ℕ} {er : R → List ℕ}
    {ra : A → Type 0} {rr : R → Type 0} (la : Lawful ca ea ra) (lr : Lawful cr er rr) where
  pub ready-Callable :
      (a0 : A) (r0 : R) (meth : Method Store A R) (cl : Client) (s : Server Store)
      (random junk start c : ℕ) (o : Op) (a : A)
      → Ready cl s random junk start c o
      → find (proc_of o) s.procs ≡ some (handler ca cr a0 r0 meth)
      → ra a
      → rr (meth s.app a r0).2
      → 24 + length (ea a) ≤ max_fill
      → 24 + length (er (meth s.app a r0).2) ≤ max_fill
      → (meth s.app a r0).1 < 2 ^ 31
      → Callable la lr a0 r0 meth cl s (proc_of o) c a
  ready-Callable a0 r0 meth cl s random junk start c o a k reg_ args result room room' status =
      record {
        allowed = op_allowed o cl k.bound;
        is_new = k.is_new;
        current = current_lem cl.srv_nonce s.nonce k.instance_;
        range = k.range;
        registered = reg_;
        args = args;
        result = result;
        args_room = room;
        result_room = room';
        status = status;
        alive = k.alive;
        referenced = k.referenced;
      }

-- What a call of `o` does, from the client to the server and back.
abbrev pub Remote :
    (o : Op) (old : Output o) (cl : Client) (s : Server Store) (mem1 mem2 : Mem) (junk local c : ℕ)
    → Type 0
Remote o old cl s mem1 mem2 junk local c =
    (m : Marshall) × (m' : Marshall) × (cl' : Client) × (t : Server Store) × (start_op o mem1 local
        cl
      ≡ some (sent (request_header (proc_of o) cl) m cl'))
    × (dispatch mem2 c (memory m) m.ind s ≡ some t)
    × (t.app.extents ≡ (direct o s.app.now junk s.app.extents).0)
    × (t.sent ≡ s.sent ++ (c, some (memory m'), m'.ind) ∷ [])
    × (finish_op o old local cl.xid (memory m') m'.ind cl'
        ≡ some
            ((direct o s.app.now junk s.app.extents).1, (direct o s.app.now junk s.app.extents).2))
