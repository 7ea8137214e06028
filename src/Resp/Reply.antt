-- ===== src/Resp/Reply.antt =====
-- internal/resp/reply.go: a reply of RESP2, one constructor for each kind.
use memcore.Base.{Bool, true, false, ◌&&◌, List, [], ◌∷◌, Bytes, bytes_eq, codes}
use memcore.Base.Int.{ℤ, leb_ℤ}

mutual
  pub data Reply : Type 0 where
    nil : Reply
    simple : Bytes → Reply
    error : Bytes → Reply
    int : ℤ → Reply
    bulk : Bytes → Reply
    array : Replies → Reply

  -- The `[]Reply` of an array.
  pub data Replies : Type 0 where
    done : Replies
    more : Reply → Replies → Replies

abbrev pub ok_reply : Reply
ok_reply = simple (codes "OK")

-- An array of bulk strings.
abbrev pub bulks : List Bytes → Replies
bulks [] = done
bulks (b ∷ bs) = more (bulk b) (bulks bs)

unfoldable pub is_error : Reply → Bool
is_error (error s) = true
is_error _ = false

-- `Equal`. Arrays of unequal length differ.
unfoldable mutual
  pub equal : Reply → Reply → Bool
  equal nil nil = true
  equal (simple a) (simple b) = bytes_eq a b
  equal (error a) (error b) = bytes_eq a b
  equal (int a) (int b) = leb_ℤ a b && leb_ℤ b a
  equal (bulk a) (bulk b) = bytes_eq a b
  equal (array a) (array b) = equal_all a b
  equal _ _ = false

  pub equal_all : Replies → Replies → Bool
  equal_all done done = true
  equal_all (more a as') (more b bs) = equal a b && equal_all as' bs
  equal_all _ _ = false
