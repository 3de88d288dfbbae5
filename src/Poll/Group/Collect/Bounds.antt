-- ===== src/Poll/Group/Collect/Bounds.antt =====
-- How many workers of a group poll at once, through a whole collection and after it.
use shim_service.Base.{ℕ, []}
use shim_service.Poll.Group.{Group}

-- `AbstractProcessorGroup.__init__`
unfoldable pub new_group : ℕ → Group
new_group max_working_count = record {
  max_working_count = max_working_count;
  submit_count = 0;
  working_count = 0;
  threads = [];
  invocations = 0;
}
