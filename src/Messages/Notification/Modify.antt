-- ===== src/Messages/Notification/Modify.antt =====
-- What modifyUserMessage does to the messages, on every branch, errors included.
use datafoundry_proxy.Base.{
  ℕ, ◌≡◌, refl, sym, subst, ◌⊎◌, inl, inr, Bool, true, false, not, [], Option, none, some, Str,
  str_eq, if◌then◌else◌,
}
use datafoundry_proxy.Base.Int.{ℤ, eq_ℤ}
use datafoundry_proxy.Errors.{GoError}
use datafoundry_proxy.Effect.{Result, ok, err, M, returns, run, attempt, pure, ◌>>=◌}
use datafoundry_proxy.Effect.Total.{Total, Total-pure, Total-bind}
use datafoundry_proxy.Database.{Database}
use datafoundry_proxy.Database.Transactions.{
  View, Inside, InsideOn, Begun, Wrote, Selected, TxLaws, Writes, Reads, Total-begin, Total-write,
  Total-select, Total-rollback, Total-commit,
}
use datafoundry_proxy.Messages.Notification.{
  Modified, sql_status, sql_set_status, status_of_action, status_either, no_rows, other_receiver,
  undo, write_status, with_message, modify_user_message,
}

-- The messages by their ids, as pairs of the receiver and the status.
abbrev pub Mailbox : Type 0
Mailbox = ℤ → Option (Str × ℤ)

abbrev pub with_status : ℤ → Option (Str × ℤ) → Option (Str × ℤ)
with_status status none = none
with_status status (some (receiver, _)) = some (receiver, status)

abbrev pub set_status : ℤ → ℤ → Mailbox → Mailbox
set_status id status m k = if eq_ℤ k id then with_status status (m k) else m k

-- The statements on one message: they read and write its row. `F` is what an error shows.
pub record MessageLaws {W : Type 0} (F : Type 0) (D : Database W) (V : View W Mailbox) (table : Str)
    (id status : ℤ) : Type 0 where
  pub transactions : TxLaws F D V
  pub select :
      (w : W) → Reads F V (V.pending w id) w (D.tx_query_text_number (sql_status table id) w)
  pub update :
      (w : W)
      → Writes F V (set_status id status) w (D.tx_exec (sql_set_status table status id) [] w)

-- The reply and the mailbox by the message that is there: the receiver alone changes its status.
abbrev pub modify_reply : Str → Option (Str × ℤ) → Modified
modify_reply user none = (true, some no_rows)
modify_reply user (some (receiver, old)) =
    if not (str_eq receiver user) then (true, some other_receiver) else (true, none)

abbrev pub modified : Str → ℤ → ℤ → Option (Str × ℤ) → Mailbox → Mailbox
modified user id status none m = m
modified user id status (some (receiver, old)) m =
    if not (str_eq receiver user) then m else if eq_ℤ old status then m else set_status id status m

-- The committed mailbox after a call with this reply: with an error it is as before, and without one
-- it is the modified one, unless the commit failed.
abbrev pub Settled : Type 0 → Modified → Mailbox → Mailbox → Modified → Mailbox → Type 0
Settled F expected before target (handled, some e) after =
    (F ⊎ (expected ≡ (handled, some e))) × (after ≡ before)
Settled F expected before target (handled, none) after =
    (expected ≡ (handled, none)) × ((after ≡ target) ⊎ (F × (after ≡ before)))

module _ {W : Type 0} (F : Type 0) (D : Database W) (V : View W Mailbox) (user table : Str)
    (id status : ℤ) (L : MessageLaws F D V table id status) (before : Mailbox) (n : ℕ) where
  abbrev Ends : Modified → Mailbox → Modified → W → Type 0
  Ends expected target r w =
      Settled F expected before target r (V.committed w) × (V.open_count w ≡ n)

  undo_lem :
      (P : W → Type 0) (expected : Modified) (target : Mailbox) (r : Modified)
      → ((w : W) → P w → Inside V before n w)
      → ((w : W) → P w → Settled F expected before target r before)
      → Total P (undo D r) (Ends expected target)
  unfolding undo
  undo_lem P expected target r inside s =
      Total-rollback F D V L.transactions before n r P inside
        λ w w' p q. (subst (Settled F expected before target r) (sym q.0) (s w p), q.1)

  after_fault :
      (expected : Modified) (target : Mailbox) (e : GoError)
      → Total (λ w. F × Inside V before n w) (undo D (true, some e)) (Ends expected target)
  after_fault expected target e =
      undo_lem _ expected target (true, some e) (λ w p. p.1) (λ w p. (inl p.0, refl))

  undone :
      (expected : Modified) (target : Mailbox) (r : Modified)
      → Settled F expected before target r before
      → Total (InsideOn V before n before) (undo D r) (Ends expected target)
  undone expected target r s = undo_lem _ expected target r (λ w p. (p.0, p.1)) (λ _ _. s)

  write_status_lem :
      Total
        (InsideOn V before n before)
        (write_status D table status id)
        (Ends (true, none) (set_status id status before))
  unfolding write_status
  write_status_lem =
      Total-bind (Wrote F D V L.transactions before n (set_status id status before)) _ _
        (Total-write F D V L.transactions before n (set_status id status) before
          (D.tx_exec (sql_set_status table status id) []) (λ w p. L.update w))
        after_statement
    where
      after_statement :
          (r : Result (Unit {0}))
          → Total {A = Modified}
              (Wrote F D V L.transactions before n (set_status id status before) r)
              (elim r [
                | err e ↦ undo D (true, some e)
                | ok _ ↦ attempt (run D.commit) >>= λ _. pure (true, none)
              ])
              (Ends (true, none) (set_status id status before))
      after_statement (err e) = after_fault (true, none) (set_status id status before) e
      after_statement (ok _) =
          Total-commit F D V L.transactions before n (true, none) (set_status id status before)
            λ w c o. ((refl, c), o)

  Ends-if :
      (b : Bool) (m m' : M W Modified) {e e' : Modified} {t t' : Mailbox}
      → Total (InsideOn V before n before) m (Ends e t)
      → Total (InsideOn V before n before) m' (Ends e' t')
      → Total
          (InsideOn V before n before)
          (if b then m else m')
          (Ends (if b then e else e') (if b then t else t'))
  Ends-if true m m' h h' = h
  Ends-if false m m' h h' = h'

  Ends-if_target :
      (b : Bool) (m m' : M W Modified) {e : Modified} {t t' : Mailbox}
      → Total (InsideOn V before n before) m (Ends e t)
      → Total (InsideOn V before n before) m' (Ends e t')
      → Total (InsideOn V before n before) (if b then m else m') (Ends e (if b then t else t'))
  Ends-if_target true m m' h h' = h
  Ends-if_target false m m' h h' = h'

  with_message_lem :
      (row : Result (Option (Str × ℤ)))
      → Total
          (Selected F D V L.transactions before n (before id) row)
          (with_message D user table status id row)
          (Ends (modify_reply user (before id)) (modified user id status (before id) before))
  unfolding with_message
  with_message_lem (err e) = after_fault _ _ e
  with_message_lem (ok none) = record {
    at = λ w p.
        (subst
            (λ o.
              Total (InsideOn V before n before) (undo D (true, some no_rows))
                (Ends (modify_reply user o) (modified user id status o before)))
            p.1 (undone _ before (true, some no_rows) (inr refl, refl))).at
          w p.0;
  }
  with_message_lem (ok (some (receiver, old))) = record {
    at = λ w p.
        (subst
            (λ o.
              Total (InsideOn V before n before)
                (with_message D user table status id (ok (some (receiver, old))))
                (Ends (modify_reply user o) (modified user id status o before)))
            p.1
            (Ends-if (not (str_eq receiver user)) _ _
              (undone _ before (true, some other_receiver) (inr refl, refl))
              (Ends-if_target (eq_ℤ old status) _ _ (undone _ before (true, none) (refl, inl refl))
                write_status_lem))).at
          w p.0;
  }

-- An action that sets the status to read or unread (so a handled one) always returns, whatever fails
-- in the database, and ends the transaction that it began; with an error the committed messages are
-- unchanged. Without a fault of the database the reply is the one that the stored message determines:
-- an error where there is none of the id, or where it is another receiver's; and the messages change
-- in the status of this one alone, for its receiver (the commit, whose error is dropped, may fail and
-- change nothing).
pub modify_user_message-Settled :
    {W : Type 0} (F : Type 0) (D : Database W) (V : View W Mailbox) (user table action : Str)
    (id : ℤ) (L : MessageLaws F D V table id (status_of_action action)) (w : W)
    → eq_ℤ (status_of_action action) status_either ≡ false
    → (r : Modified) × (w' : W) × (modify_user_message D user table id action w ≡ (returns r, w'))
      × (Settled F
            (modify_reply user (V.committed w id))
            (V.committed w)
            (modified user id (status_of_action action) (V.committed w id) (V.committed w))
            r
            (V.committed w')
          × (V.open_count w' ≡ V.open_count w))
unfolding modify_user_message
modify_user_message-Settled {W} F D V user table action id L w handled = rw handled (
    (Total-bind (Begun F D V L.transactions (V.committed w) (V.open_count w)) _ _
        (Total-begin F D V L.transactions (V.committed w) (V.open_count w)) after_begin).at
      w (refl, refl))
  where
    after_begin :
        (r : Result (Unit {0}))
        → Total {A = Modified}
            (Begun F D V L.transactions (V.committed w) (V.open_count w) r)
            (elim r [
              | err e ↦ pure (true, some e)
              | ok _ ↦
                  attempt (run (D.tx_query_text_number (sql_status table id)))
                  >>= with_message D user table (status_of_action action) id
            ])
            (λ r w'.
              Settled F
                (modify_reply user (V.committed w id))
                (V.committed w)
                (modified user id (status_of_action action) (V.committed w id) (V.committed w))
                r
                (V.committed w')
              × (V.open_count w' ≡ V.open_count w))
    after_begin (err e) = Total-pure (true, some e) λ w p. ((inl p.0, p.1.0), p.1.1)
    after_begin (ok _) =
        Total-bind
          (Selected F D V L.transactions (V.committed w) (V.open_count w) (V.committed w id)) _ _
          (Total-select F D V L.transactions (V.committed w) (V.open_count w)
            (λ (t : Mailbox). t id) (D.tx_query_text_number (sql_status table id))
            (λ w. L.select w))
          (with_message_lem F D V user table id (status_of_action action) L (V.committed w)
            (V.open_count w))
