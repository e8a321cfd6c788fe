-- ===== src/Kernel/Tests.antt =====
-- The tests on small machines.
use simply_os.Base.{[]}
use simply_os.Terminal.{Terminal}
use simply_os.Pmm.Tests.{small, small-IsValid}
use simply_os.Paging.Tests.{machine, machine-IsSpace}
use simply_os.Kernel.{pmm_self_test, paging_self_test}
use simply_os.Kernel.Frames.{Tests, pmm_self_test-Tests}
use simply_os.Kernel.Pages.{PagesTests, paging_self_test-PagesTests}

abbrev screen : Terminal
screen = record { row = 0; column = 0; color = 7; cells = λ i. 0; out = [] }

pmm_self_test-Tests_example : Tests small screen (pmm_self_test small screen)
pmm_self_test-Tests_example = pmm_self_test-Tests small screen small-IsValid

paging_self_test-PagesTests_example : PagesTests machine screen (paging_self_test machine screen)
paging_self_test-PagesTests_example = paging_self_test-PagesTests machine screen machine-IsSpace
