-- ===== src/Workspace/Tests.antt =====
-- The theorems on deleting a topic at concrete events.
use kafka_manager.Base.{true, false, none, some, List, [], ◌∷◌, codes}
use kafka_manager.Feedback.{Provider}
use kafka_manager.Workspace.{WorkspaceState}
use kafka_manager.Workspace.Delete.{
  DeleteEvent, opened, closed, submitted, typed, removed, refresh, refreshed, delete_run, first_run,
  IsTracked, delete_run-first_run-IsTracked,
}

abbrev no_items : Provider
no_items = record { items = []; serial = 0 }

abbrev attempt : List DeleteEvent
attempt =
    opened
    ∷ typed (codes "order")
    ∷ submitted
    ∷ typed (codes "orders")
    ∷ submitted
    ∷ submitted
    ∷ refresh
    ∷ removed 5 (some (codes "refused"))
    ∷ refreshed 6 none
    ∷ submitted
    ∷ closed
    ∷ removed 7 none
    ∷ []

abbrev orders_typed : WorkspaceState
orders_typed = record {
  error = [];
  confirming_delete = true;
  deleting = false;
  refreshing = true;
  typed = codes "orders";
  feedback = no_items;
}

delete_run-first_run-IsTracked_example :
    IsTracked (delete_run (codes "orders") false (first_run no_items) attempt)
delete_run-first_run-IsTracked_example =
    delete_run-first_run-IsTracked (codes "orders") false no_items attempt
