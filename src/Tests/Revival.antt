-- ===== src/Tests/Revival.antt =====
-- A dead task is sent back.
use crunchytask.Common.{◌≡◌, [], ◌∷◌, refl}
use crunchytask.ParseResult.{ok}
use crunchytask.Outside.Redis.{contains}
use crunchytask.Task.Status.{pending}
use crunchytask.Scripts.{
  returned, decode_table, revive, revived_message, retry_dead_items, retry_dead_task_script,
  scripts_retry_dead_task,
}
use crunchytask.Broker.{found_dead, retry_dead_task, get_status}
use crunchytask.Broker.Revival.{retry_dead_task-outcome}
use crunchytask.Tests.Json.{same_iff}
use crunchytask.Tests.Libraries.{floats, json_lib, lua, index, member}
use crunchytask.Tests.Server.{Store, server}
use crunchytask.Tests.Broker.{mail, mail_text, empty_store}

abbrev one_dead : Store
one_dead = record empty_store { dead = mail_text ∷ [] }

revived : (retry_dead_task floats json_lib lua server mail.id one_dead).0 ≡ returned (ok mail.id)
unfolding retry_dead_task scripts_retry_dead_task retry_dead_task_script retry_dead_items
    decode_table revive revived_message found_dead contains index member
revived = rw ((same_iff mail_text mail_text).1 refl) refl

retry_dead_task-outcome_example :
    get_status floats json_lib lua server mail.id
      (retry_dead_task floats json_lib lua server mail.id one_dead).1
    ≡ ok pending
retry_dead_task-outcome_example =
    retry_dead_task-outcome floats json_lib lua server mail.id one_dead revived
