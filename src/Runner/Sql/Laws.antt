-- ===== src/Runner/Sql/Laws.antt =====
-- What the SQL runner takes a query for, and what the policy was asked to allow.
use tracepoint.Base.{
  Bool, true, false, ◌&&◌, ◌||◌, ◌≡◌, refl, sym, ap, ◌∙◌, List, [], ◌∷◌, any, map, arith,
}
use tracepoint.Base.Float.{Float}
use tracepoint.Base.Text.{Text, codes, ◌==◌}
use tracepoint.Config.{TxStatement, Query}
use tracepoint.Config.Statements.{query_item}
use tracepoint.Config.Laws.{writes}
use tracepoint.Policy.Classify.{Classification, is_write, is_empty}
use tracepoint.Policy.Classify.Sql.{classify_sql}
use tracepoint.Runner.Sql.{raw, infers_write, op_of}

any-map :
    {A B : Type 0} (p : B → Bool) (g : A → B) (xs : List A)
    → any p (map g xs) ≡ any (λ x. p (g x)) xs
unfolding any
any-map p g [] = refl
any-map p g (x ∷ xs) = ground (arith, any-map p g xs)

any_never : {A : Type 0} (p : A → Bool) (xs : List A) → any (λ x. false && p x) xs ≡ false
unfolding any
any_never p [] = refl
any_never p (x ∷ xs) = any_never p xs

module _ (f : Float) where
  any-verdicts :
      (p : Classification → Bool) (src : Query f)
      → any p (query_item f src).verdicts
        ≡ any (λ (t : TxStatement). p (classify_sql t.sql)) (raw f src)
  unfolding query_item any
  any-verdicts p src = go src.sql
    where
      rest :
          any p (map classify_sql (map (λ (t : TxStatement). t.sql) src.tx))
          ≡ any (λ (t : TxStatement). p (classify_sql t.sql)) src.tx
      rest =
          any-map p classify_sql (map (λ (t : TxStatement). t.sql) src.tx)
          ∙ any-map (λ t. p (classify_sql t)) (λ (t : TxStatement). t.sql) src.tx

      go :
          (sql : Text)
          → any p (query_item f (record src { sql = sql })).verdicts
            ≡ any (λ (t : TxStatement). p (classify_sql t.sql)) (raw f (record src { sql = sql }))
      go [] = unfold query_item in rest
      go (c ∷ cs) = unfold query_item any in ap (λ b. p (classify_sql (c ∷ cs)) || b) rest

  pub op_of-writes :
      (type : Text) (w : Bool)
      → (op_of type w == codes "write") ≡ ((type == codes "write") || (is_empty type && w))
  unfolding ◌==◌
  op_of-writes [] true = refl
  op_of-writes [] false = refl
  op_of-writes (c ∷ cs) w = ground arith

  writes_by_type :
      (type : Text) (ts : List TxStatement)
      → (is_empty type && infers_write ts)
        ≡ any (λ (t : TxStatement). is_empty type && is_write (classify_sql t.sql).op) ts
  unfolding infers_write any
  writes_by_type [] ts = refl
  writes_by_type (c ∷ cs) ts =
      sym (any_never (λ (t : TxStatement). is_write (classify_sql t.sql).op) ts)

  -- What the runner takes a query for is what the policy was asked to allow.
  pub op_of-query_item :
      (src : Query f)
      → (op_of src.type (infers_write (raw f src)) == codes "write") ≡ writes (query_item f src)
  unfolding query_item
  op_of-query_item src =
      op_of-writes src.type (infers_write (raw f src))
      ∙ ap (λ b. (src.type == codes "write") || b)
          (writes_by_type src.type (raw f src)
            ∙ sym (any-verdicts (λ g. is_empty src.type && is_write g.op) src))
