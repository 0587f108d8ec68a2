-- ===== src/Tests/Notifications.antt =====
-- The messages, in the database in memory.
use datafoundry_proxy.Base.{ℕ, ◌+◌, ◌≤◌, ◌<◌, ◌≡◌, refl, [], ◌∷◌, Str, str_eq, codes, false, arith}
use datafoundry_proxy.Base.Int.{pos, negsuc, eq_ℤ}
use datafoundry_proxy.Effect.{returns}
use datafoundry_proxy.Messages.Notification.{Modified, modify_user_message, status_of_action}
use datafoundry_proxy.Messages.Notification.Query.{
  validate_offset_and_limit, get_user_messages, mark_read,
}
use datafoundry_proxy.Messages.Notification.Page.{validate_offset_and_limit-bounds}
use datafoundry_proxy.Messages.Notification.Rows.{messages_of}
use datafoundry_proxy.Messages.Notification.Answers.{get_user_messages-returns}
use datafoundry_proxy.Messages.Notification.Modify.{
  Mailbox, Settled, modify_reply, modified, modify_user_message-Settled,
}
use datafoundry_proxy.Messages.Notification.Upgrade.Text.{split_after, joined, joined-split_after}
use datafoundry_proxy.Tests.Database.{
  Memory, resting, memory_view, mailbox, mail_memory, mail_memory-laws, row_7,
}

abbrev table : Str
table = codes "DF_MESSAGE"

-- The third page of two messages each, of three messages: the last two.
validate_offset_and_limit-bounds_example :
    (o : ℕ) × (l : ℕ) × (validate_offset_and_limit (pos 3) (pos 4) (pos 2) ≡ (pos o, pos l))
    × (1 ≤ l)
    × (o + l ≤ 3)
    × (l ≤ 2)
    × (4 < 3 → o ≡ 4)
validate_offset_and_limit-bounds_example =
    validate_offset_and_limit-bounds 3 (pos 4) (pos 2) (omega arith) (omega arith) (omega arith)
      (omega arith)

get_user_messages-returns_example :
    get_user_messages mail_memory
      (codes "alice")
      table
      []
      (negsuc 0)
      (pos 2)
      []
      (pos 0)
      (pos 30)
      (resting mailbox)
    ≡ (
      returns (pos 3, messages_of (row_7 ∷ [])),
      (mark_read mail_memory (codes "alice") table (messages_of (row_7 ∷ [])) (resting mailbox)).1,
    )
get_user_messages-returns_example =
    get_user_messages-returns mail_memory (codes "alice") table [] [] (negsuc 0) (pos 2) (pos 0)
      (pos 30) (resting mailbox) (omega arith) (omega arith) (omega arith) refl refl

-- Bob marks a message of alice's as read.
read_action : eq_ℤ (status_of_action (codes "read")) (pos 2) ≡ false
unfolding eq_ℤ str_eq
read_action = refl

modify_user_message-Settled_example :
    (r : Modified) × (w' : Memory Mailbox) × (modify_user_message mail_memory
        (codes "bob")
        table
        (pos 7)
        (codes "read")
        (resting mailbox)
      ≡ (returns r, w'))
    × (Settled ⊥
          (modify_reply (codes "bob") (mailbox (pos 7)))
          mailbox
          (modified
            (codes "bob")
            (pos 7)
            (status_of_action (codes "read"))
            (mailbox (pos 7))
            mailbox)
          r
          (memory_view.committed w')
        × (w'.open_count ≡ 0))
modify_user_message-Settled_example =
    modify_user_message-Settled ⊥ mail_memory memory_view (codes "bob") table (codes "read") (pos 7)
      (mail_memory-laws table) (resting mailbox) read_action

joined-split_after_example :
    joined (split_after (codes ";\n") 0 (codes "a;\nb;\nc")) ≡ codes "a;\nb;\nc"
joined-split_after_example = joined-split_after (codes ";\n") 0 (codes "a;\nb;\nc")
