-- ===== src/Collaboration/Laws/PlanSound.antt =====
-- The planning operations and Assess, and the shape of the State.
use omnigrex.Collaboration.References.{reference}
use omnigrex.Collaboration.Laws.Naming.{reference-Named}
use omnigrex.Collaboration.Laws.Sound.{Sound}
use omnigrex.Collaboration.Laws.PlanKeeps.{IsFramed}

pub Sound-IsFramed : IsFramed Sound
unfolding reference
Sound-IsFramed = record {
  planned = λ s p h. record {
    named = h.named;
    ordered = h.ordered;
    assigned = h.assigned;
    frontier = h.frontier;
  };
  named = λ s id p h. record {
    named = reference-Named s "P" id h.named;
    ordered = h.ordered;
    assigned = h.assigned;
    frontier = h.frontier;
  };
  assessed = λ s as' p h. record {
    named = h.named;
    ordered = h.ordered;
    assigned = h.assigned;
    frontier = h.frontier;
  };
}
