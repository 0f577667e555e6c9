-- ===== src/Zend/Versions.antt =====
-- The layout that phpspy_trace_tpl.c is instantiated with: the header of the PHP version for the
-- architecture that phpspy is built for.
use phpspy.Zend.Layout.{
  Layout, x86_64_70, x86_64_71, x86_64_72, x86_64_73, x86_64_74, x86_64_80, x86_64_81, x86_64_82,
  x86_64_83, x86_64_84, x86_64_85, x86_64_86,
}
use phpspy.Zend.Layout.Aarch64.{
  aarch64_70, aarch64_71, aarch64_72, aarch64_73, aarch64_74, aarch64_80, aarch64_81, aarch64_82,
  aarch64_83, aarch64_84, aarch64_85, aarch64_86,
}

pub data Arch : Type 0 where
  x86_64 aarch64 : Arch

-- The versions that phpspy.c instantiates phpspy_trace_tpl.c for.
pub data Version : Type 0 where
  v70 v71 v72 v73 v74 v80 v81 v82 v83 v84 v85 v86 : Version

unfoldable pub layout : Version → Arch → Layout
layout v70 x86_64 = x86_64_70
layout v70 aarch64 = aarch64_70
layout v71 x86_64 = x86_64_71
layout v71 aarch64 = aarch64_71
layout v72 x86_64 = x86_64_72
layout v72 aarch64 = aarch64_72
layout v73 x86_64 = x86_64_73
layout v73 aarch64 = aarch64_73
layout v74 x86_64 = x86_64_74
layout v74 aarch64 = aarch64_74
layout v80 x86_64 = x86_64_80
layout v80 aarch64 = aarch64_80
layout v81 x86_64 = x86_64_81
layout v81 aarch64 = aarch64_81
layout v82 x86_64 = x86_64_82
layout v82 aarch64 = aarch64_82
layout v83 x86_64 = x86_64_83
layout v83 aarch64 = aarch64_83
layout v84 x86_64 = x86_64_84
layout v84 aarch64 = aarch64_84
layout v85 x86_64 = x86_64_85
layout v85 aarch64 = aarch64_85
layout v86 x86_64 = x86_64_86
layout v86 aarch64 = aarch64_86
