-- ===== src/Orders/Threads.antt =====
-- The platform's message in an order's thread (backend/app/services/catalog_service.py,
-- `raise_dispute` and `resolve_dispute`), sent once the dispute is committed.
use Prim.Native.Char.{code}
use Prim.Native.String.{String}
use kaasb.Common.{ℕ, ◌≡◌, refl, Option, none, some, List, [], ◌∷◌, select, ◌&&◌, Text, subst}
use kaasb.Db.{
  Db, Action, ok, ◌>>=◌, pure, find_one, request, ◌is◌, holds, Conversation, ConversationType,
  conversation_coded, Keeps, Keeps-pure, Keeps-bind, Keeps-find, Keeps-request,
}
use kaasb.Messages.Sending.{send_system_message}
use kaasb.Messages.Announcing.{IgnoresChat, Keeps-announced}

abbrev pub code_points : String → Text
code_points String.[] = []
code_points (String.◌∷◌ c s) = code c ∷ code_points s

abbrev pub order_threads : ℕ → Db → List Conversation
order_threads k db =
    select (λ c. holds c.order_id k && (c.conversation_type is ConversationType.order))
      db.conversations

abbrev pub tell : ℕ → Text → Option Conversation → Action (Unit {0})
tell now content none = pure tt
tell now content (some c) = send_system_message now c.id content >>= λ _. pure tt

-- What fails here takes back nothing that was committed before.
unfoldable pub tell_order : ℕ → ℕ → Text → Action (Unit {0})
tell_order now k content db = ok (tt, request (find_one (order_threads k) >>= tell now content) db)

module _ (P : Db → Type 0) (chat : IgnoresChat P) where
  Keeps-tell : (now : ℕ) (content : Text) (c : Option Conversation) → Keeps P (tell now content c)
  unfolding send_system_message
  Keeps-tell now content none = Keeps-pure P tt
  Keeps-tell now content (some c) =
      Keeps-bind P (send_system_message now c.id content) _
        (Keeps-announced P chat now c.id content) λ _. Keeps-pure P tt

  told :
      (now k : ℕ) (content : Text) (db : Db)
      → P db
      → P (request (find_one (order_threads k) >>= tell now content) db)
  told now k content db h =
      Keeps-request P (find_one (order_threads k) >>= tell now content) db
        (Keeps-find P (order_threads k) (tell now content) (Keeps-tell now content)) h

-- The message touches neither the orders nor the escrows.
pub tell_order-keeps :
    (now k : ℕ) (content : Text) (db db' : Db) (u : Unit {0})
    → tell_order now k content db ≡ ok (u, db')
    → (db'.orders ≡ db.orders) × (db'.escrows ≡ db.escrows)
unfolding tell_order
tell_order-keeps now k content db db' u h =
    let P : Db → Type 0 = λ d. (d.orders ≡ db.orders) × (d.escrows ≡ db.escrows) in
    let chat : IgnoresChat P = record { ignores = λ cs ms n d le p. p } in
    let after = request (find_one (order_threads k) >>= tell now content) db in
    let same : after ≡ db' = cc in subst P same (told P chat now k content db (refl, refl))
