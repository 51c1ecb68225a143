-- ===== src/Workflow/Registry/Tests.antt =====
-- Two versions of a definition.
use ryvan_os.Base.Map.{get, set}
use ryvan_os.Workflow.Validator.{
  validate_definition, walk, find_cycle, validate_depends, validate_dependencies, validate_step,
  validate_ids,
}
use ryvan_os.Workflow.Types.{WorkflowDefinition}
use ryvan_os.Workflow.Registry.{registered, register, WorkflowRegistry}
use ryvan_os.Workflow.Validator.Tests.{chain}
use ryvan_os.Base.{◌≡◌, refl, [], returns}

abbrev nothing_yet : WorkflowRegistry
nothing_yet = record { definitions = []; latest = []; handlers = [] }

abbrev first : WorkflowRegistry
first = registered nothing_yet chain

abbrev chain_2 : WorkflowDefinition
chain_2 = record chain { version = "2" }

second_registers : register first chain_2 ≡ returns (registered first chain_2)
unfolding register validate_definition validate_ids validate_step validate_dependencies
    validate_depends find_cycle walk get set
second_registers = refl
