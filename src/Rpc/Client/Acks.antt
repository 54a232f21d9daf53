-- ===== src/Rpc/Client/Acks.antt =====
-- update_xid_rep of rpc/rpc.cc: which replies the client has received. The first number of the list
-- is sent with each request as an acknowledgement of all xids up to it.
use ds.Base.{ℕ, ◌+◌, ◌%◌, ◌^◌, List, [], ◌∷◌, ◌++◌, ltb, leb, ◌==◌, if◌then◌else◌}

-- xid_rep_window_.front(); the list is never empty
abbrev pub front : List ℕ → ℕ
front [] = 0
front (a ∷ _) = a

-- Before the first number that is larger, else at the end.
unfoldable pub insert_xid : ℕ → List ℕ → List ℕ
insert_xid xid [] = xid ∷ []
insert_xid xid (a ∷ l) = let rest = insert_xid xid l in if ltb xid a then xid ∷ a ∷ l else a ∷ rest

-- while (front() + 1 == *it) pop_front(), with `before` the part in front of the iterator: when it
-- is used up, front() is *it itself.
unfoldable pub pop_before : List ℕ → ℕ → List ℕ
pop_before [] x = []
pop_before (b ∷ before) x =
    let rest = pop_before before x in if (b + 1) % 2 ^ 32 == x then rest else b ∷ before

-- for (it++; it != end(); it++), with the part before the iterator and the part from it on.
unfoldable pub compress : List ℕ → List ℕ → List ℕ
unfolding pop_before
compress before [] = before
compress before (x ∷ after) = compress (pop_before before x ++ x ∷ []) after

abbrev pub compress_all : List ℕ → List ℕ
compress_all [] = []
compress_all (a ∷ l) = compress (a ∷ []) l

unfoldable pub update_xid_rep : ℕ → List ℕ → List ℕ
unfolding insert_xid compress
update_xid_rep xid w = if leb xid (front w) then w else compress_all (insert_xid xid w)
