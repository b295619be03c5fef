-- ===== src/Lib.antt =====
-- gsim compiles a circuit in FIRRTL to a C++ simulator. The parser builds a graph of nodes, each with
-- expression trees (include/ExpTree.h: ExpTree, ENode); passes over the graph infer widths, fold
-- constants, cut unused bits, sort and merge nodes, and an emitter prints the C++ code. This library
-- models the passes over expression trees, the arithmetic under them, and passes over the graph.
--
-- The parts, and the code that they model:
--   Circuit: the kinds of operators, nodes and resets (include/ExpTree.h, Node.h, common.h).
--   Tree: an ENode with the fields that the passes read, and its children, which may be null; copies and
--     array indices (src/ENode.cpp, dup, getArrayIndex, and getIdx in Tree.Range, hasVarIdx in Tree.Single). Tree.Mentions is
--     getRelyNodes (src/deadNodes.cpp), Tree.Widths is matchWidth (src/ExpTree.cpp).
--   Gmp: the functions of GMP that the code calls, a record of operations with their documented laws.
--     Gmp.Reference is an implementation, so the laws can hold together.
--   OpFuncs: src/opFuncs.cpp, each function by its name (u_asUInt is u_as_u_int). The destination is the
--     result; where the code reads it, it is an argument.
--   ValInfo: include/valInfo.h, what is known of an enode, with updateConsVal and setConstantByStr.
--   ConstFold: src/constantNode.cpp. Entry, Binary, Unary and Control hold the consXxx functions, which
--     take the children's entries of consEMap as arguments; Tree is ENode::computeConstant.
--     ConstFold.Sound compares them with Firrtl.
--   Firrtl: the meaning of FIRRTL's operators on integers, independent of the code.
--   InferWidth: src/inferWidth.cpp, ENode::inferWidth, Node::inferWidth and Node::updateHeadTail.
--   UsedBits: src/usedBits.cpp, the bits that an enode asks of its children, and
--     src/ENode.cpp, usedBitWithFixRoot.
--   TopoSort: src/topoSort.cpp, the depth-first loop, as steps from state to state.
--   LoopDetector: src/loopDetector.cpp, detectLoop and detectSortedSuperLoop, one search with a flag.
--   Relations: the sets prev, next, depPrev and depNext of nodes and super nodes, with their operations
--     (src/Node.cpp, src/superNode.cpp); Connect fills them: updateConnect, updateDep,
--     constructSuperConnect (src/Node.cpp) and reconnectAll (src/graph.cpp).
--   SuperGraph: src/graph.cpp, the removal of nodes and of empty super nodes, and orderAllNodes with
--     isNext of src/mergeRegister.cpp in SuperGraph.Order.
--   DeadNodes: src/deadNodes.cpp, removeDeadNodes: the marks from the outputs back over what nodes rely
--     on, then the removal by SuperGraph. DeadNodes.Composed is about the predecessors that Connect fills.
--   ExprOpt: src/exprOpt.cpp, treeOpt and subTreeEq, with checkENodeEq of src/commonExpr.cpp;
--     ExprOpt.Laws has what is asked of a meaning of the operators and of a tree, and
--     ExprOpt.FirrtlMeaning FIRRTL's meaning in that form.
--   Alias: src/aliasAnalysis.cpp, isAlias, mergeSubTree and ExpTree::replace.
--   MtAnalysis: src/cppEmitterMtAnalysis.cpp, which tasks may run beside others, the edges between tasks
--     and the caches of them (MtAnalysis.Edges). A task is a super node that is emitted.
--   MtPlan: src/cppEmitterMtPlan.cpp with the types of src/cppEmitterImpl.h: the regions
--     (MtPlan.Regions, planMtCoarseRegions and mtBuildCoarseRegion), the layers of a region
--     (MtPlan.Layers, mtAddCoarseLayers), pure batches (MtPlan.Batches, planMtPureBatches), the workers
--     of a region and the assignment of its mtasks to them (MtPlan.Workers).
--   ActiveMap: src/cppEmitterUtil.cpp, activeSet2bitMap, the flags to set packed into masks of 64 bits.
--   MergeNodes: src/mergeNodes.cpp, anyPath, the search back over depPrev before a merge.
--   PatternDetect: src/patternDetect.cpp, the two comparisons of checkPattern2.
--   Util: src/util.cpp, literals, names of operators, hexadecimal text, masks and powers of two.
--   Prelude: shared names, integers over the native numbers, residues and two's complement.
--   Examples: the theorems at concrete inputs.
--
-- computeConstant is applied to a tree after inferWidth and updateHeadTail have set its widths; its
-- entries are read by the passes that replace nodes by constants. A call that ends in TODO(), Panic() or
-- a failed assertion is `none`. All functions are total. Recursion is on the tree, or on fuel: the
-- loops of src/util.cpp that halve an int have fuel for its 32 bits and those of a BASIC_TYPE for its
-- 128; a stack or queue of enodes has the size of its trees as fuel; the work list of removeDeadNodes
-- has the number of nodes, since each is added once; the search of LoopDetector has 2n + 1 rounds for n
-- super nodes, since each is expanded once and left once; the layers of a region have a round for
-- each of its tasks, since each round emits one or more; the loops over ids have superId rounds; and
-- anyPath puts each super node on its stack once, and those before the first one once more. The loop of
-- topoSort is a step relation. A std::set is a list, or a map to lists, whose order and repetitions
-- nothing reads.
--
-- Not modelled: entries of array references, the fixed points over the nodes of the graph, the parser,
-- the collection of aliases, the merging of common nodes, the passes that merge, split and partition nodes, the
-- propagation of resets and clocks, mtasks by union-find, and the
-- rest of the emitter, which is text output.
pub mod ActiveMap
pub mod Alias
pub mod Circuit
pub mod Connect
pub mod ConstFold
pub mod DeadNodes
pub mod Examples
pub mod ExprOpt
pub mod Firrtl
pub mod Gmp
pub mod InferWidth
pub mod LoopDetector
pub mod MergeNodes
pub mod MtAnalysis
pub mod MtPlan
pub mod OpFuncs
pub mod PatternDetect
pub mod Prelude
pub mod Relations
pub mod SuperGraph
pub mod TopoSort
pub mod Tree
pub mod UsedBits
pub mod Util
pub mod ValInfo
